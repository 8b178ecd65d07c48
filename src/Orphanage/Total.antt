-- ===== src/Orphanage/Total.antt =====
-- How often the entries of a database of orphans have a hash, and how the counts of parents change.
use flex.Common.{
  ℕ, ◌+◌, ◌-◌, ◌%◌, ◌^◌, ◌≡◌, ◌≤◌, ◌<◌, refl, ap, ◌∙◌, ◌&&◌, List, [], ◌∷◌, ◌++◌, arith, ltb, ◌==◌,
  if◌then◌else◌, Bool-cases, inl, inr,
}
use flex.StdMap.{Map, lookup, put, erase}
use flex.StdMap.Laws.{lookup-put, erase_absent}
use flex.StdMap.Order.{From, lookup_below}
use flex.Orphanage.{
  entries_at, num_parents, is_positive, increment_num_parents,
  decrement_num_parents_and_check_still_orphan, non_orphans,
}

module _ {ℓ} {A : Type ℓ} (hash_of : A → ℕ) where
  -- How many entries have a hash.
  abbrev pub times : ℕ → List A → ℕ
  times h [] = 0
  times h (x ∷ xs) = (if h == hash_of x then 1 else 0) + times h xs

  abbrev pub total : ℕ → Map (List A) → ℕ
  total h [] = 0
  total h ((key, entries) ∷ db) = times h entries + total h db

  pub times-append :
      (h : ℕ) (xs : List A) (x : A)
      → times h (xs ++ x ∷ []) ≡ times h xs + (if h == hash_of x then 1 else 0)
  times-append h [] x = ground arith
  times-append h (y ∷ xs) x = ground (arith, times-append h xs x)

  pub total-put :
      (n h key : ℕ) (entries : List A) (db : Map (List A))
      → From n db
      → total h (put key entries db) + times h (entries_at key db) ≡ total h db + times h entries
  unfolding lookup put
  total-put n h key entries [] f = omega arith
  total-put n h key entries ((k, old) ∷ db) f =
      ground (arith, total-put (k + 1) h key entries db f.1, lookup_below (k + 1) key db f.1)

  pub total-erase :
      (n h key : ℕ) (db : Map (List A))
      → From n db
      → total h (erase key db) + times h (entries_at key db) ≡ total h db
  unfolding lookup erase
  total-erase n h key [] f = omega arith
  total-erase n h key ((k, old) ∷ db) f = ground (
    arith,
    total-erase (k + 1) h key db f.1,
    lookup_below (k + 1) key db f.1,
    erase_absent key db,
  )

  pub num_parents-put :
      (h k n : ℕ) (counts : Map ℕ)
      → num_parents h (put k n counts) ≡ (if h == k then n else num_parents h counts)
  num_parents-put h k n counts = rw lookup-put (ground arith)

  -- What the loop takes off the counts.
  pub num_parents-non_orphans :
      (h n : ℕ) (xs : List A) (counts : Map ℕ)
      → num_parents h counts ≡ (n + times h xs) % 2 ^ 32
      → num_parents h (non_orphans hash_of xs counts).1 ≡ n % 2 ^ 32
  unfolding non_orphans decrement_num_parents_and_check_still_orphan
  num_parents-non_orphans h n [] counts e = ground (arith, e)
  num_parents-non_orphans h n (x ∷ xs) counts e =
      let rest = (num_parents (hash_of x) counts + (2 ^ 32 - 1)) % 2 ^ 32 in
      num_parents-non_orphans h n xs (put (hash_of x) rest counts) (
        num_parents-put h (hash_of x) rest counts ∙ elim (Bool-cases (h == hash_of x)) [
          | inl is ↦
              let same : hash_of x ≡ h = ground (arith, is) in
              rw is (rw same (ground (arith, e, is)))
          | inr isnt ↦ rw isnt (ground (arith, e, isnt))
        ])

  -- An entry is returned once, if its last missing parent is among those of the list.
  pub times-non_orphans :
      (h n : ℕ) (xs : List A) (counts : Map ℕ)
      → num_parents h counts ≡ n
      → times h xs ≤ n
      → n < 2 ^ 31
      → times h (non_orphans hash_of xs counts).0
        ≡ (if ltb 0 (times h xs) && (n == times h xs) then 1 else 0)
  unfolding non_orphans decrement_num_parents_and_check_still_orphan
  times-non_orphans h n [] counts e le lt = refl
  times-non_orphans h n (x ∷ xs) counts e le lt =
      let rest = (num_parents (hash_of x) counts + (2 ^ 32 - 1)) % 2 ^ 32 in
      let put_lem = num_parents-put h (hash_of x) rest counts in
      elim (Bool-cases (h == hash_of x)) [
        | inl is ↦
            let same : num_parents (hash_of x) counts ≡ n =
              ap (λ k. num_parents k counts) (ground (arith, is)) ∙ e in
            let less : rest ≡ n - 1 = ground (arith, same, is) in
            let ih =
              times-non_orphans h (n - 1) xs (put (hash_of x) rest counts)
                (put_lem ∙ ground (arith, is, less)) (ground (arith, is, le)) (omega arith) in
            elim (Bool-cases (is_positive rest)) [
              | inl more ↦ rw more (ih ∙ ground (arith, is, le, less, more))
              | inr last ↦ rw last (ground (arith, ih, is, le, less, last))
            ]
        | inr isnt ↦
            let ih =
              times-non_orphans h n xs (put (hash_of x) rest counts)
                (put_lem ∙ ground (arith, isnt, e)) (ground (arith, isnt, le)) lt in
            elim (Bool-cases (is_positive rest)) [
              | inl more ↦ rw more (ground (arith, ih, isnt))
              | inr last ↦ rw last (ground (arith, ih, isnt))
            ]
      ]

  -- An entry at the end of the vector under a key.
  pub total-append :
      (h key : ℕ) (x : A) (db : Map (List A))
      → From 0 db
      → total h (put key (entries_at key db ++ x ∷ []) db)
        ≡ total h db + (if h == hash_of x then 1 else 0)
  total-append h key x db f = ground (
    arith,
    total-put 0 h key (entries_at key db ++ x ∷ []) db f,
    times-append h (entries_at key db) x,
  )

-- One more missing parent.
pub increment_num_parents_lem :
    (h k n : ℕ) (counts : Map ℕ)
    → num_parents h counts ≡ n % 2 ^ 32
    → num_parents h (increment_num_parents k counts) ≡ (n + (if h == k then 1 else 0)) % 2 ^ 32
unfolding increment_num_parents
increment_num_parents_lem h k n counts e =
    num_parents-put (λ (x : ℕ). x) h k ((num_parents k counts + 1) % 2 ^ 32) counts
    ∙ elim (Bool-cases (h == k)) [
      | inl is ↦ let same : k ≡ h = ground (arith, is) in rw is (rw same (ground (arith, e)))
      | inr isnt ↦ rw isnt (ground (arith, e))
    ]
