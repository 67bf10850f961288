-- ===== src/Multi/Keys.antt =====
-- The maps from keys to clients, and how often a client or a key stands in a list.
use myownproject.Base.{
  ℕ, suc, ◌-◌, ◌<◌, ◌≡◌, refl, sym, ap, inl, inr, Bool, true, ◌&&◌, none, some, List, [], ◌∷◌, ◌++◌,
  ◌==◌, ltb, if◌then◌else◌, arith, Bool-cases,
}
use myownproject.Multi.State.{Key, key_eq, fetch, remove, assign}
use myownproject.Multi.Watch.{is_watched, delete}

pub key_eq_refl : (a : Key) → key_eq a a ≡ true
unfolding key_eq
key_eq_refl [] = refl
key_eq_refl (x ∷ xs) = ground (arith, key_eq_refl xs)

pub key_eq→eq : (a b : Key) → key_eq a b ≡ true → a ≡ b
unfolding key_eq
key_eq→eq [] [] h = refl
key_eq→eq [] (y ∷ ys) h = ground arith
key_eq→eq (x ∷ xs) [] h = ground arith
key_eq→eq (x ∷ xs) (y ∷ ys) h =
    (let e : x ≡ y = ground arith in
      let t : key_eq xs ys ≡ true = ground arith in rw e (ap (λ l. y ∷ l) (key_eq→eq xs ys t)))

key_eq_join : (a b c : Key) → key_eq c a ≡ true → key_eq c b ≡ true → key_eq a b ≡ true
key_eq_join a b c e f = rw (sym (key_eq→eq c a e), sym (key_eq→eq c b f)) (key_eq_refl c)

pub fetch-remove :
    (k q : Key) (m : List (Key × List ℕ))
    → fetch q (remove k m) ≡ (if key_eq q k then none else fetch q m)
unfolding fetch remove
fetch-remove k q [] = ground arith
fetch-remove k q (e ∷ es) = elim (Bool-cases (key_eq k e.0)) [
  | inl h ↦
      (let same : key_eq q k ≡ key_eq q e.0 = ap (λ a. key_eq q a) (key_eq→eq k e.0 h) in
        rw (h, fetch-remove k q es, same) (ground arith))
  | inr h ↦ rw h (ground (arith, fetch-remove k q es, key_eq_join k e.0 q))
]

pub fetch-assign :
    (k q : Key) (l : List ℕ) (m : List (Key × List ℕ))
    → fetch q (assign k l m) ≡ (if key_eq q k then some l else fetch q m)
unfolding fetch assign
fetch-assign k q l m = ground (arith, fetch-remove k q m)

-- How often a client stands in a list, and how often a key of a database does.
unfoldable pub count : ℕ → List ℕ → ℕ
count c [] = 0
count c (i ∷ is) = let rest = count c is in if c == i then suc rest else rest

abbrev pub same_key : ℕ → Key → ℕ × Key → Bool
same_key d key wk = wk.0 == d && key_eq key wk.1

unfoldable pub watch_count : ℕ → Key → List (ℕ × Key) → ℕ
watch_count d key [] = 0
watch_count d key (wk ∷ wks) =
    let rest = watch_count d key wks in if same_key d key wk then suc rest else rest

pub count-append :
    (c : ℕ) (l : List ℕ) (i : ℕ)
    → count c (l ++ (i ∷ [])) ≡ (if c == i then suc (count c l) else count c l)
unfolding count
count-append c [] i = refl
count-append c (j ∷ l) i = ground (arith, count-append c l i)

pub watch_count-append :
    (d : ℕ) (key : Key) (wks : List (ℕ × Key)) (wk : ℕ × Key)
    → watch_count d key (wks ++ (wk ∷ []))
      ≡ (if same_key d key wk then suc (watch_count d key wks) else watch_count d key wks)
unfolding watch_count
watch_count-append d key [] wk = refl
watch_count-append d key (w ∷ wks) wk = ground (arith, watch_count-append d key wks wk)

pub is_watched-count :
    (d : ℕ) (key : Key) (wks : List (ℕ × Key))
    → is_watched d key wks ≡ ltb 0 (watch_count d key wks)
unfolding is_watched watch_count
is_watched-count d key [] = refl
is_watched-count d key (wk ∷ wks) = ground (arith, is_watched-count d key wks)

-- A client that stands in a list can be taken off it, once.
pub delete-count :
    (c : ℕ) (l : List ℕ)
    → 0 < count c l
    → (r : List ℕ) × (delete c l ≡ some r)
      × ((i : ℕ) → count i r ≡ (if i == c then count i l - 1 else count i l))
unfolding delete count
delete-count c [] h = absurd (omega arith)
delete-count c (i ∷ is) h = elim (Bool-cases (i == c)) [
  | inl e ↦ (is, rw e refl, (λ j. ground arith))
  | inr e ↦
      (let more : 0 < count c is = ground arith in
        let (r, g, f) = delete-count c is more in
        (i ∷ r, rw (e, g) refl, (λ j. let q = f j in ground arith)))
]
