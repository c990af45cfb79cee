-- ===== src/Inspect/Histogram/Ranking.antt =====
-- `top_hosts` gives the entries with the most counts.
use mathlib.Core.List.Permᴰ
use mathlib.Core.List.{Permᴰ, Perm}
use aegiuw.Prelude.{
  leb, leb→le, Bool-cases, Bytes, length, drop, take-append-drop, length-take, ℕ, ◌≤◌, ◌<◌, min,
  ◌≡◌, refl, ◌⊎◌, inl, inr, true, List, [], ◌∷◌, ◌++◌, arith,
}
use aegiuw.Inspect.Histogram.{
  empty_histogram, before, insert_by_count, sort_by_count, top_hosts, replay_lines,
}
use aegiuw.Inspect.Histogram.Keys.{Every, Pairwise, SortedKeys, replay_lines-SortedKeys}

-- More counts, or as many and a name that comes first.
abbrev pub Ahead : Bytes × ℕ → Bytes × ℕ → Type 0
Ahead p q = (q.1 < p.1) ⊎ ((q.1 ≡ p.1) × (before p.0 q.0 ≡ true))

Every-insert_by_count :
    (P : Bytes × ℕ → Type 0) (p : Bytes × ℕ) (qs : List (Bytes × ℕ))
    → P p
    → Every P qs
    → Every P (insert_by_count p qs)
unfolding insert_by_count
Every-insert_by_count P p [] a e = (a, tt)
Every-insert_by_count P p (q ∷ qs) a (b, e) = elim (Bool-cases (leb q.1 p.1)) [
  | inl y ↦ rw y (a, (b, e))
  | inr n ↦ rw n (b, Every-insert_by_count P p qs a e)
]

Every-sort_by_count :
    (P : Bytes × ℕ → Type 0) (ps : List (Bytes × ℕ)) → Every P ps → Every P (sort_by_count ps)
unfolding sort_by_count
Every-sort_by_count P [] e = tt
Every-sort_by_count P (p ∷ ps) (a, e) = Every-insert_by_count P p _ a (Every-sort_by_count P ps e)

insert_by_count-Pairwise :
    (p : Bytes × ℕ) (qs : List (Bytes × ℕ))
    → Every (λ q. before p.0 q.0 ≡ true) qs
    → Pairwise Ahead qs
    → Pairwise Ahead (insert_by_count p qs)
unfolding insert_by_count
insert_by_count-Pairwise p [] b w = (tt, tt)
insert_by_count-Pairwise p (q ∷ qs) (b, bs) (e, w) = elim (Bool-cases (leb q.1 p.1)) [
  | inl y ↦ rw y ((first p q b (leb→le _ _ y), later p q qs (leb→le _ _ y) bs e), (e, w))
  | inr n ↦
      rw n (Every-insert_by_count _ p qs (inl (ground arith)) e, insert_by_count-Pairwise p qs bs w)
]
  where
    first : (p q : Bytes × ℕ) → before p.0 q.0 ≡ true → q.1 ≤ p.1 → Ahead p q
    first p q b h = ground arith

    later :
        (p q : Bytes × ℕ) (rs : List (Bytes × ℕ))
        → q.1 ≤ p.1
        → Every (λ r. before p.0 r.0 ≡ true) rs
        → Every (Ahead q) rs
        → Every (Ahead p) rs
    later p q [] h bs e = tt
    later p q (r ∷ rs) h (b, bs) (a, e) = (ground arith, later p q rs h bs e)

sort_by_count-Pairwise : (ps : List (Bytes × ℕ)) → SortedKeys ps → Pairwise Ahead (sort_by_count ps)
unfolding sort_by_count
sort_by_count-Pairwise [] s = tt
sort_by_count-Pairwise (p ∷ ps) (e, s) =
    insert_by_count-Pairwise p (sort_by_count ps) (Every-sort_by_count _ ps e)
      (sort_by_count-Pairwise ps s)

insert_by_count-Permᴰ :
    (p : Bytes × ℕ) (qs : List (Bytes × ℕ)) → Permᴰ (p ∷ qs) (insert_by_count p qs)
unfolding insert_by_count
insert_by_count-Permᴰ p [] = Permᴰ.refl (p ∷ [])
insert_by_count-Permᴰ p (q ∷ qs) = elim (Bool-cases (leb q.1 p.1)) [
  | inl y ↦ rw y (Permᴰ.refl (p ∷ q ∷ qs))
  | inr n ↦ rw n (Permᴰ.trans (Permᴰ.swap refl refl) (Permᴰ.cons refl (insert_by_count-Permᴰ p qs)))
]

sort_by_count-Permᴰ : (ps : List (Bytes × ℕ)) → Permᴰ ps (sort_by_count ps)
unfolding sort_by_count
sort_by_count-Permᴰ [] = Permᴰ.nil
sort_by_count-Permᴰ (p ∷ ps) =
    Permᴰ.trans (Permᴰ.cons refl (sort_by_count-Permᴰ ps))
      (insert_by_count-Permᴰ p (sort_by_count ps))

-- After a replay the top hosts are the first of all the hosts of the map when these are ranked by
-- their counts, and by their names where they count the same: the map is a reordering of the top hosts
-- and of others, each of which every top host is ahead of.
pub top_hosts-ranked :
    (texts : List Bytes) (n : ℕ)
    → let h = replay_lines empty_histogram texts in
      (rest : List (Bytes × ℕ)) × Perm h.host_counts (top_hosts h n ++ rest)
      × Pairwise Ahead (top_hosts h n ++ rest)
      × (length (top_hosts h n) ≡ min n (length (top_hosts h n ++ rest)))
unfolding top_hosts
top_hosts-ranked texts n =
    let entries = (replay_lines empty_histogram texts).host_counts in
    let all = sort_by_count entries in
    (
      drop n all,
      rw (take-append-drop n all) (∣ sort_by_count-Permᴰ entries ∣₁),
      rw (take-append-drop n all) (sort_by_count-Pairwise entries (replay_lines-SortedKeys texts)),
      rw (take-append-drop n all) (length-take n all),
    )
