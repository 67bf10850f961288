-- ===== src/Slowlog/Tests.antt =====
-- Runs of the slow log, and its theorems at a concrete log.
use myownproject.Base.{ℕ, ◌≡◌, refl, true, List, [], ◌∷◌, ◌++◌, map, take, arith}
use myownproject.Base.Int.{ℤ, pos}
use myownproject.Slowlog.{
  Argument, Slowlog, copy_arguments, create_entry, delete_last, trim_loop, record_entry, push,
  reset, sent,
}
use myownproject.Slowlog.Order.{IsDescending, push-take, push-IsDescending}

program : Unit {0}
unfolding copy_arguments create_entry delete_last trim_loop record_entry push reset sent
    IsDescending
program = tt

abbrev more_arguments : ℕ → List ℕ
more_arguments n = b'.' ∷ n ∷ []

abbrev more_bytes : List ℕ → ℕ → List ℕ
more_bytes s n = s ++ (n ∷ [])

abbrev get_x : List Argument
get_x =
    record { is_text = true; bytes = b'g' ∷ [] } ∷ record { is_text = true; bytes = b'x' ∷ [] } ∷ []

abbrev logged : Slowlog → ℤ → Slowlog
logged log duration = push more_arguments more_bytes (pos 10) 2 log get_x duration 99

abbrev three_pushed : Slowlog
three_pushed =
    logged (logged (logged (record { entries = []; next_id = 0 }) (pos 10)) (pos 11)) (pos 12)

push_runs :
    (map (λ e. e.id) three_pushed.entries ≡ 2 ∷ 1 ∷ [])
    × (logged three_pushed (pos 9) ≡ three_pushed)
    × (map (λ e. e.id) (sent (pos 1) three_pushed.entries) ≡ 2 ∷ [])
unfolding program
push_runs = (refl, refl, refl)

push-take_example :
    (push more_arguments more_bytes (pos 10) 2 three_pushed get_x (pos 13) 99).entries
    ≡ take 2 (
        create_entry more_arguments more_bytes get_x (pos 13) 99 three_pushed.next_id
        ∷ three_pushed.entries)
push-take_example =
    push-take more_arguments more_bytes (pos 10) 2 three_pushed get_x (pos 13) 99 refl

push-IsDescending_example :
    IsDescending
      (push more_arguments more_bytes (pos 10) 2 three_pushed get_x (pos 13) 99).next_id
      (push more_arguments more_bytes (pos 10) 2 three_pushed get_x (pos 13) 99).entries
unfolding program
push-IsDescending_example =
    push-IsDescending more_arguments more_bytes (pos 10) 2 three_pushed get_x (pos 13) 99
      (omega arith, (omega arith, tt))
