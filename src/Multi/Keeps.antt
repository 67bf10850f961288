-- ===== src/Multi/Keeps.antt =====
-- What the operations of src/vr_multi.c leave of the keys that a client watches, and of its mark.
use myownproject.Base.{
  ℕ, ◌≡◌, refl, ap, ◌∙◌, inl, inr, Bool, true, false, ◌&&◌, Option, List, [], ◌∷◌, ◌++◌, ◌==◌, ltb,
  if◌then◌else◌, arith, Bool-cases,
}
use myownproject.Multi.State.{Key, ok, nested, Client, Server, update_client, reply}
use myownproject.Multi.Watch.{
  is_watched, add_watched, watch_for_key, mark, touch_watched_key, touch_watched_keys_on_flush,
}
use myownproject.Multi.Keys.{count}
use myownproject.Multi.Linked.{watched, IsLinked}
use myownproject.Multi.Marks.{touch_watched_key-client}
use myownproject.Multi.Flush.{lost, touch_watched_keys_on_flush-client}
use myownproject.Multi.Transaction.{flag_transaction, multi_command}

-- What a client watches it still watches, and its mark stays.
pub record Keeps (x y : Client) : Type 0 where
  pub keys :
      (d : ℕ) (key : Key)
      → is_watched d key x.watched_keys ≡ true
      → is_watched d key y.watched_keys ≡ true
  pub dirty : x.dirty_cas ≡ true → y.dirty_cas ≡ true

pub Keeps-refl : (x : Client) → Keeps x x
Keeps-refl x = record { keys = λ d key h. h; dirty = λ h. h }

pub Keeps-trans : (x y z : Client) → Keeps x y → Keeps y z → Keeps x z
Keeps-trans x y z f g = record {
  keys = λ d key h. g.keys d key (f.keys d key h);
  dirty = λ h. g.dirty (f.dirty h);
}

pub Keeps-if :
    (b : Bool) (f : Client → Client) (x : Client) → Keeps x (f x) → Keeps x (if b then f x else x)
Keeps-if true f x k = k
Keeps-if false f x k = Keeps-refl x

-- The fields that matter here are left alone.
pub Keeps-same :
    (x y : Client)
    → y.watched_keys ≡ x.watched_keys
    → (x.dirty_cas ≡ true → y.dirty_cas ≡ true)
    → Keeps x y
Keeps-same x y e f = record { keys = λ d key h. ap (is_watched d key) e ∙ h; dirty = f }

is_watched-append :
    (d : ℕ) (key : Key) (wks : List (ℕ × Key)) (wk : ℕ × Key)
    → is_watched d key wks ≡ true
    → is_watched d key (wks ++ (wk ∷ [])) ≡ true
unfolding is_watched
is_watched-append d key [] wk h = ground arith
is_watched-append d key (w ∷ wks) wk h = ground (arith, is_watched-append d key wks wk)

pub watch_for_key-Keeps :
    (i : ℕ) (key : Key) (s : Server) (c : ℕ) → Keeps (s.client c) ((watch_for_key i key s).client c)
unfolding watch_for_key
watch_for_key-Keeps i key s c = elim (Bool-cases (is_watched (s.client i).db key (watched i s))) [
  | inl e ↦ rw (watch_for_key, e) (Keeps-refl (s.client c))
  | inr e ↦
      rw (watch_for_key, e)
        (Keeps-if (c == i) (add_watched (s.client i).db key) (s.client c) record {
          keys = λ d q h. is_watched-append d q (s.client c).watched_keys ((s.client i).db, key) h;
          dirty = λ h. h;
        })
]

pub touch-Keeps :
    (d : ℕ) (key : Key) (s : Server) (c : ℕ)
    → IsLinked s
    → Keeps (s.client c) ((touch_watched_key d key s).client c)
touch-Keeps d key s c h = rw (touch_watched_key-client d key s c h) (
    Keeps-if (is_watched d key (watched c s)) mark (s.client c)
      (Keeps-same (s.client c) (mark (s.client c)) refl (λ z. refl)))

pub flush-Keeps :
    (dbid : Option ℕ) (s : Server) (c : ℕ)
    → Keeps (s.client c) ((touch_watched_keys_on_flush dbid s).client c)
flush-Keeps dbid s c = rw (touch_watched_keys_on_flush-client dbid s c) (
    Keeps-if (ltb 0 (count c s.clients) && ltb 0 (lost dbid s.db (watched c s))) mark (s.client c)
      (Keeps-same (s.client c) (mark (s.client c)) refl (λ z. refl)))

-- A change of one client that touches neither.
pub record IsAside (f : Client → Client) : Type 0 where
  pub watches : (x : Client) → (f x).watched_keys ≡ x.watched_keys
  pub dirty : (x : Client) → x.dirty_cas ≡ true → (f x).dirty_cas ≡ true

pub update_client-Keeps :
    (f : Client → Client) (i : ℕ) (s : Server) (c : ℕ)
    → IsAside f
    → Keeps (s.client c) ((update_client i f s).client c)
update_client-Keeps f i s c a =
    Keeps-if (c == i) f (s.client c)
      (Keeps-same (s.client c) (f (s.client c)) (a.watches (s.client c)) (a.dirty (s.client c)))

IsAside-if :
    (b : Client → Bool) (f g : Client → Client)
    → IsAside f
    → IsAside g
    → IsAside (λ x. if b x then f x else g x)
IsAside-if b f g h k = record { watches = λ x. watches (b x) x; dirty = λ x. dirty (b x) x }
  where
    watches : (t : Bool) (x : Client) → (if t then f x else g x).watched_keys ≡ x.watched_keys
    watches true x = h.watches x
    watches false x = k.watches x

    dirty : (t : Bool) (x : Client) → x.dirty_cas ≡ true → (if t then f x else g x).dirty_cas ≡ true
    dirty true x = h.dirty x
    dirty false x = k.dirty x

pub multi_command-IsAside : IsAside multi_command
unfolding multi_command
multi_command-IsAside =
    IsAside-if (λ x. x.in_multi) (reply nested) (λ x. reply ok (record x { in_multi = true }))
      (record { watches = λ x. refl; dirty = λ x h. h })
      (record { watches = λ x. refl; dirty = λ x h. h })

pub flag_transaction-IsAside : IsAside flag_transaction
unfolding flag_transaction
flag_transaction-IsAside =
    IsAside-if (λ x. x.in_multi) (λ x. record x { dirty_exec = true }) (λ x. x)
      (record { watches = λ x. refl; dirty = λ x h. h })
      (record { watches = λ x. refl; dirty = λ x h. h })
