-- ===== src/KernelMemory/Respaldo/Bloques.antt =====
-- Which blocks `obtener_n_bloques_libres` finds, and what the bit map says behind it.
use tp_so_limpio.Base.{
  ℕ, zero, suc, ◌+◌, ◌-◌, ◌≤◌, ◌<◌, ◌≡◌, refl, inl, inr, ◌⊎◌, true, false, Option, none, some,
  arith, ltb, leb, ◌==◌, ◌&&◌, if◌then◌else◌, Bool-cases, ==_iff, Option-cases, dec_lt,
}
use tp_so_limpio.Commons.{Commons}
use tp_so_limpio.KernelMemory.Respaldo.{
  buscar_n_bloques, marcar_bloques, obtener_n_bloques_libres, liberar_bloques_swap,
}

module _ (c : Commons) where
  -- The blocks from `a` on, `n` of them, are free.
  abbrev pub Libres : c.Bitarray → ℕ → ℕ → Type 0
  Libres b a n = (j : ℕ) → a ≤ j → j < a + n → c.bitarray_test_bit b j ≡ false

  -- Exactly the given blocks are marked.
  pub marcar_bloques_lem :
      (b : c.Bitarray) (i n j : ℕ)
      → c.bitarray_test_bit (marcar_bloques c b i n) j
        ≡ (if leb i j && ltb j (i + n) then true else c.bitarray_test_bit b j)
  unfolding marcar_bloques
  marcar_bloques_lem b i zero j = ground arith
  marcar_bloques_lem b i (suc n) j =
      ground (arith, marcar_bloques_lem (c.bitarray_set_bit b i) (i + 1) n j, c.test-set b i j)

  -- Exactly the given blocks are freed.
  pub liberar_bloques_swap_lem :
      (b : c.Bitarray) (i n j : ℕ)
      → c.bitarray_test_bit (liberar_bloques_swap c b i n) j
        ≡ (if leb i j && ltb j (i + n) then false else c.bitarray_test_bit b j)
  unfolding liberar_bloques_swap
  liberar_bloques_swap_lem b i zero j = ground arith
  liberar_bloques_swap_lem b i (suc n) j =
      ground
        (arith, liberar_bloques_swap_lem (c.bitarray_clean_bit b i) (i + 1) n j, c.test-clean b i j)

  module _ (b : c.Bitarray) (n : ℕ) where
    -- A run that is found is free, lies within the map, and no run of that length starts before it.
    abbrev pub Hallado : ℕ → Option ℕ → Type 0
    Hallado total none = (a : ℕ) → a + n ≤ total → ¬ Libres b a n
    Hallado total (some r) = (r + n ≤ total) × Libres b r n × ((a : ℕ) → a < r → ¬ Libres b a n)

    -- With a run of `contador` free blocks just before block `i`.
    buscar-Hallado :
        (total quedan i contador inicio : ℕ)
        → i + quedan ≡ total
        → 0 < n
        → contador < n
        → contador ≤ i
        → (contador ≡ 0) ⊎ (inicio + contador ≡ i)
        → Libres b (i - contador) contador
        → ((a : ℕ) → a < i - contador → ¬ Libres b a n)
        → Hallado total (buscar_n_bloques c b n quedan i contador inicio)
    unfolding buscar_n_bloques
    buscar-Hallado total zero i k ini e pos menos cabe donde libres antes =
        λ a fin l. antes a (omega arith) l
    buscar-Hallado total (suc q) i k ini e pos menos cabe donde libres antes =
        elim (Bool-cases (c.bitarray_test_bit b i)) [
          | inl t ↦
              rw (t, buscar_n_bloques)
                (buscar-Hallado total q (i + 1) 0 0 (omega arith) pos pos (omega arith) (inl refl)
                  (λ j h k'. absurd (omega arith))
                  (λ a h l. elim (dec_lt a (i - k)) [
                    | yes p ↦ antes a p l
                    | no p ↦ let x = l i (omega arith) (omega arith) in cc
                  ]))
          | inr t ↦
              let ini' : ℕ = if k == 0 then i else ini in
              let aqui : ini' + k ≡ i = ground arith in
              let mas : Libres b (i - k) (k + 1) = λ j h h'. elim (dec_lt j i) [
                | yes p ↦ libres j h (omega arith)
                | no p ↦ let m : j ≡ i = omega arith in rw m t
              ] in
              let r : i - k ≡ ini' = omega arith in
              rw (t, buscar_n_bloques)
                (elim (Bool-cases (k + 1 == n)) [
                  | inl fin ↦
                      let n' : k + 1 ≡ n = (==_iff _ _).0 fin in
                      rw fin (omega arith, rw (← n', ← r) mas, rw (← r) antes)
                  | inr sigue ↦
                      let ia : i + 1 - (k + 1) ≡ i - k = omega arith in
                      rw sigue (
                        buscar-Hallado total q (i + 1) (k + 1) ini' (omega arith) pos (ground arith)
                          (omega arith) (inr (omega arith)) (rw ia mas) (rw ia antes))
                ])
        ]

  -- What may be said of the answer to a request for `n` blocks.
  abbrev pub Obtenido : ℕ → c.Bitarray → ℕ → Option (ℕ × c.Bitarray) → Type 0
  Obtenido total b n none = (a : ℕ) → a + n ≤ total → ¬ Libres b a n
  Obtenido total b n (some (r, b')) =
      (r + n ≤ total)
      × Libres b r n
      × ((a : ℕ) → a < r → ¬ Libres b a n)
      × ((j : ℕ)
          → c.bitarray_test_bit b' j
            ≡ (if leb r j && ltb j (r + n) then true else c.bitarray_test_bit b j))

  -- A request for at least one block gets the first run of free blocks of that length, and exactly that
  -- run is marked; it is answered -1 only if there is no such run.
  pub obtener-Obtenido :
      (total : ℕ) (b : c.Bitarray) (n : ℕ)
      → 0 < n
      → Obtenido total b n (obtener_n_bloques_libres c b total n)
  unfolding obtener_n_bloques_libres
  obtener-Obtenido total b n pos =
      let h =
        buscar-Hallado b n total total 0 0 0 (omega arith) pos pos (omega arith) (inl refl)
          (λ j x y. absurd (omega arith)) (λ a x y. absurd (omega arith)) in
      elim (Option-cases (buscar_n_bloques c b n total 0 0 0)) [
        | inl nada ↦ rw nada (rw nada at h)
        | inr (r, e) ↦
            let (a, l, p) : Hallado b n total (some r) = rw e at h in
            rw e (a, l, p, λ j. marcar_bloques_lem b r n j)
      ]
