-- ===== src/Multi/Unwatch.antt =====
-- `unwatchAllKeys` (src/vr_multi.c) never fails, and takes the client off all its keys.
use myownproject.Base.{
  ℕ, ◌≡◌, refl, ap, ◌∙◌, inl, inr, true, some, List, [], ◌∷◌, ◌==◌, if◌then◌else◌, arith,
  Bool-cases, is_empty,
}
use myownproject.Multi.State.{Key, Server}
use myownproject.Multi.Watch.{set_watched, unwatch_key, unwatch_loop, unwatch_all_keys}
use myownproject.Multi.Linked.{watched, IsLinked}
use myownproject.Multi.Linked.Steps.{Releases, unwatch_key-IsLinked}

Releases-trans :
    (c : ℕ) (rest : List (ℕ × Key)) (s t u : Server)
    → Releases c rest s t
    → Releases c [] t u
    → Releases c [] s u
Releases-trans c rest s t u f g i =
    g i ∙ elim (Bool-cases (i == c)) [ inl e ↦ rw (f i, e) refl | inr e ↦ rw (f i, e) refl ]

Releases-watched :
    (c : ℕ) (rest : List (ℕ × Key)) (s t : Server) → Releases c rest s t → watched c t ≡ rest
Releases-watched c rest s t f =
    ap (λ x. x.watched_keys) (f c) ∙ (let e : (c == c) ≡ true = ground arith in rw e refl)

abbrev pub Unwatched : ℕ → Server → Server → Type 0
Unwatched c s t = IsLinked t × Releases c [] s t

-- A client that watches nothing has nothing released.
unchanged : (c : ℕ) (s : Server) → watched c s ≡ [] → Releases c [] s s
unchanged c s e i = elim (Bool-cases (i == c)) [
  | inl g ↦ (let z : i ≡ c = ground arith in rw (g, z) (ap (λ w. set_watched w (s.client c)) e))
  | inr g ↦ rw g refl
]

unwatch_loop_step :
    (c : ℕ) (wk : ℕ × Key) (wks : List (ℕ × Key)) (s t : Server)
    → unwatch_key c wk wks s ≡ some t
    → unwatch_loop c (wk ∷ wks) s ≡ unwatch_loop c wks t
unfolding unwatch_loop
unwatch_loop_step c wk wks s t e = rw (unwatch_loop, e) refl

unwatch_loop-Unwatched :
    (wks : List (ℕ × Key)) (c : ℕ) (s : Server)
    → IsLinked s
    → watched c s ≡ wks
    → (t : Server) × (unwatch_loop c wks s ≡ some t) × Unwatched c s t
unfolding unwatch_loop
unwatch_loop-Unwatched [] c s h e = (s, refl, (h, unchanged c s e))
unwatch_loop-Unwatched ((d, key) ∷ wks) c s h e =
    (let (t, f, g, r) = unwatch_key-IsLinked c d key wks s h e in
      let (u, p, (q, v)) = unwatch_loop-Unwatched wks c t g (Releases-watched c wks s t r) in
      (u, unwatch_loop_step c (d, key) wks s t f ∙ p, (q, Releases-trans c wks s t u r v)))

guarded :
    (c : ℕ) (wks : List (ℕ × Key)) (s : Server)
    → (if is_empty wks then some s else unwatch_loop c wks s) ≡ unwatch_loop c wks s
unfolding unwatch_loop
guarded c [] s = refl
guarded c (wk ∷ wks) s = refl

-- Where the lists of the clients and of the databases say the same, `unwatchAllKeys` finds its client
-- in the list of each key it watches, so that no assertion fails. The lists still say the same, the
-- client watches nothing, and no other client has changed.
pub unwatch_all_keys-Unwatched :
    (c : ℕ) (s : Server)
    → IsLinked s
    → (t : Server) × (unwatch_all_keys c s ≡ some t) × Unwatched c s t
unfolding unwatch_all_keys
unwatch_all_keys-Unwatched c s h =
    (let (t, e, u) = unwatch_loop-Unwatched (watched c s) c s h refl in
      (t, guarded c (watched c s) s ∙ e, u))
