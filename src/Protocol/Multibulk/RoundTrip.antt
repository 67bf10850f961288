-- ===== src/Protocol/Multibulk/RoundTrip.antt =====
-- `processMultibulkBuffer` (src/vr_client.c) reads an encoded request back, whatever follows it.
use mathlib.Core.List.{append_assoc, append-nil}
use myownproject.Base.{
  is_empty, ℕ, suc, ◌+◌, ◌-◌, ◌*◌, ◌^◌, ◌≤◌, ◌<◌, ◌≡◌, refl, sym, ap, ◌∙◌, true, false, ◌&&◌,
  Option, none, some, List, [], ◌∷◌, ◌++◌, ltb, leb, arith, ◌==◌, length, get_or, take, drop,
  length-append, drop-append, length-drop, take-append, Bool-cases, inl, inr,
}
use myownproject.Base.Int.{pos}
use myownproject.Util.{string2ll}
use myownproject.Util.Decimal.{decimal}
use myownproject.Util.Print.{text}
use myownproject.Util.Parse.{string2ll-text}
use myownproject.Protocol.State.{Bytes, Client, Verdict, ok, strchr, trim, mbulk_big_arg}
use myownproject.Protocol.Multibulk.{
  passes_end, passes_end_small, Flow, go, leave, multibulk_count, multibulk_line, bulk_length,
  bulk_line, bulk_header, bulk_body, bulk_round, bulk_loop, then_do, process_multibulk, finish,
  multibulk_body,
}
use myownproject.Protocol.Multibulk.Lines.{
  counted, strchr-counted, get_or-counted, take-counted, drop-counted, length-counted,
}

abbrev pub max_bulk : ℕ
max_bulk = 512 * 1024 * 1024

-- An argument, a list of arguments and a request as a client sends them.
unfoldable pub encode_argument : Bytes → Bytes → Bytes
encode_argument a rest = counted b'$' (length a) (a ++ (b'\r' ∷ b'\n' ∷ rest))

unfoldable pub encode_arguments : List Bytes → Bytes → Bytes
unfolding encode_argument
encode_arguments [] rest = rest
encode_arguments (a ∷ args) rest = encode_argument a (encode_arguments args rest)

unfoldable pub encode : List Bytes → Bytes → Bytes
unfolding encode_arguments
encode args rest = counted b'*' (length args) (encode_arguments args rest)

string2ll-decimal : (n : ℕ) → n ≤ max_bulk → string2ll (decimal n) ≡ some (pos n)
unfolding text
string2ll-decimal n l = string2ll-text (pos n) (omega arith)

-- The client behind one argument.
abbrev taken : Client → Bytes → ℕ → Bytes → Client
taken c a left buf = record c {
  argv = c.argv ++ (a ∷ []);
  multibulklen = left;
  bulklen = none;
  querybuf = buf;
}

take_argument : (a rest : Bytes) → take (length a) (a ++ (b'\r' ∷ b'\n' ∷ rest)) ≡ a
take_argument a rest = take-append a (b'\r' ∷ b'\n' ∷ rest)

abbrev went : Client → List Bytes → ℕ → Option ℕ → Bytes → ℕ → Flow
went c args left bulk buf at =
    go (record c { argv = args; multibulklen = left; bulklen = bulk; querybuf = buf }) at

same_went :
    (c : Client) {args args' : List Bytes} {left left' : ℕ} {bulk : Option ℕ} {buf buf' : Bytes}
    {at at' : ℕ}
    → args ≡ args'
    → left ≡ left'
    → buf ≡ buf'
    → at ≡ at'
    → went c args left bulk buf at ≡ went c args' left' bulk buf' at'
same_went c e f g h = rw (e, f, g, h) refl

same_leave :
    (c : Client) {args : List Bytes} {left : ℕ} {bulk : Option ℕ} {buf : Bytes} {at : ℕ}
    → c.argv ≡ args
    → c.multibulklen ≡ left
    → c.bulklen ≡ bulk
    → c.querybuf ≡ buf
    → leave c at
      ≡ leave (record c { argv = args; multibulklen = left; bulklen = bulk; querybuf = buf }) at
same_leave c e f g h = rw (sym e, sym f, sym g, sym h) refl

nil-length : (xs : Bytes) → length xs ≡ 0 → xs ≡ []
nil-length [] e = refl
nil-length (x ∷ xs) e = absurd (omega arith)

-- An argument has been taken, and at most `n` bytes are in the buffer.
abbrev Took : ℕ → Client → Bytes → ℕ → Bytes → Flow → Type 0
Took n c a left rest f =
    (after : Bytes) × (length (after ++ rest) ≤ n)
    × (f ≡ go (taken c a left (after ++ rest)) (length after))

Took-le :
    (m n : ℕ) (c : Client) (a : Bytes) (left : ℕ) (rest : Bytes) (f : Flow)
    → m ≤ n
    → Took m c a left rest f
    → Took n c a left rest f
Took-le m n c a left rest f l (after, shorter, e) = (after, omega (arith, l, shorter), e)

-- The bytes of an argument, in a buffer where they stand behind `before`.
bulk_body-argument :
    (c : Client) (before a rest : Bytes) (left : ℕ)
    → c.querybuf ≡ before ++ (a ++ (b'\r' ∷ b'\n' ∷ rest))
    → c.multibulklen ≡ suc left
    → Took (length c.querybuf) c a left rest (bulk_body c (length before) (length a))
unfolding bulk_body
bulk_body-argument c before a rest left here count =
    let size = length-append before (a ++ (b'\r' ∷ b'\n' ∷ rest)) in
    let inner = length-append a (b'\r' ∷ b'\n' ∷ rest) in
    let whole : length c.querybuf ≡ length before + (length a + (2 + length rest)) =
      omega (arith, ap length here, size, inner) in
    let enough : ltb (length c.querybuf - length before) (length a + 2) ≡ false = ground arith in
    let fewer : c.multibulklen - 1 ≡ left = omega arith in
    let found : take (length a) (drop (length before) c.querybuf) ≡ a =
      ap (λ b. take (length a) (drop (length before) b)) here
      ∙ ap (take (length a)) (drop-append before (a ++ (b'\r' ∷ b'\n' ∷ rest)))
      ∙ take_argument a rest in
    elim (Bool-cases
      (length before == 0 && (leb mbulk_big_arg (length a) && length c.querybuf == length a + 2))) [
        | inl just ↦
            (let first : length before ≡ 0 = ground arith in
              let last : length rest ≡ 0 = ground arith in
              (
                [],
                omega (arith, whole),
                rw (enough, just)
                    (same_went c
                      (ap (λ x. c.argv ++ (take (length a) x ∷ []))
                          (here
                            ∙ ap (λ x. x ++ (a ++ (b'\r' ∷ b'\n' ∷ rest)))
                                (nil-length before first))
                        ∙ ap (λ x. c.argv ++ (x ∷ [])) (take_argument a rest))
                      fewer (sym (nil-length rest last)) refl),
              ))
        | inr more ↦ (
          before ++ (a ++ (b'\r' ∷ b'\n' ∷ [])),
          omega (
            arith,
            whole,
            length-append (before ++ (a ++ (b'\r' ∷ b'\n' ∷ []))) rest,
            length-append before (a ++ (b'\r' ∷ b'\n' ∷ [])),
            length-append a (b'\r' ∷ b'\n' ∷ []),
          ),
          rw (enough, more)
              (same_went c (ap (λ x. c.argv ++ (x ∷ [])) found) fewer
                (here
                  ∙ ap (λ x. before ++ x) (sym (append_assoc a (b'\r' ∷ b'\n' ∷ []) rest))
                  ∙ sym (append_assoc before (a ++ (b'\r' ∷ b'\n' ∷ [])) rest))
                (omega (
                  arith,
                  length-append before (a ++ (b'\r' ∷ b'\n' ∷ [])),
                  length-append a (b'\r' ∷ b'\n' ∷ []),
                ))),
        )
      ]

-- A round takes one argument.
bulk_round-argument :
    (c : Client) (before a rest : Bytes) (left : ℕ)
    → c.querybuf ≡ before ++ encode_argument a rest
    → c.bulklen ≡ none
    → c.multibulklen ≡ suc left
    → length a ≤ max_bulk
    → length c.querybuf < 2 ^ 31
    → Took (length c.querybuf) c a left rest (bulk_round c (length before))
unfolding bulk_round bulk_header bulk_line bulk_length encode_argument
bulk_round-argument c before a rest left here fresh count small bound =
    let tail = a ++ (b'\r' ∷ b'\n' ∷ rest) in
    let line = before ++ counted b'$' (length a) tail in
    let newline = suc (length (decimal (length a))) in
    let read : strchr (drop (length before) c.querybuf) b'\r' ≡ some newline =
      ap (λ b. strchr (drop (length before) b) b'\r') here
      ∙ strchr-counted before b'$' (length a) tail (omega arith) in
    let mark : get_or c.querybuf (length before) 0 ≡ b'$' =
      ap (λ b. get_or b (length before) 0) here
      ∙ get_or-counted before b'$' (length a) tail (omega arith) in
    let number : string2ll (take (newline - 1) (drop (length before + 1) c.querybuf))
        ≡ some (pos (length a)) =
      ap (λ b. string2ll (take (newline - 1) (drop (length before + 1) b))) here
      ∙ ap string2ll (take-counted before b'$' (length a) tail (omega arith))
      ∙ string2ll-decimal (length a) small in
    let rest_of : drop (length before + newline + 2) c.querybuf ≡ tail =
      ap (drop (length before + newline + 2)) here
      ∙ drop-counted before b'$' (length a) tail (omega arith) in
    let fits : passes_end (length c.querybuf) (length before + newline + 2) ≡ false =
      passes_end_small (length c.querybuf) (length before + newline + 2) bound
      ∙ (let l = length-counted before b'$' (length a) tail (omega arith) in
          let h = ap length here in ground arith) in
    let legal : ltb (512 * 1024 * 1024) (length a) ≡ false = ground arith in
    elim (Bool-cases (leb mbulk_big_arg (length a))) [
      | inl big ↦
          rw (fresh, read, fits, mark, number, legal, big)
            (Took-le (length (drop (length before + newline + 2) c.querybuf)) (length c.querybuf) c
              a left rest
              (bulk_body
                (record (trim c (length before + newline + 2)) { bulklen = some (length a) }) 0
                (length a))
              (omega (arith, length-drop (length before + newline + 2) c.querybuf))
              (bulk_body-argument
                (record (trim c (length before + newline + 2)) { bulklen = some (length a) }) [] a
                rest left rest_of count))
      | inr not_big ↦
          (let head = b'$' ∷ (decimal (length a) ++ (b'\r' ∷ b'\n' ∷ [])) in
            let place : length (before ++ head) ≡ length before + newline + 2 = omega (
              arith,
              length-append before head,
              length-append (decimal (length a)) (b'\r' ∷ b'\n' ∷ []),
            ) in
            let split : c.querybuf ≡ (before ++ head) ++ tail =
              here
              ∙ ap (λ x. before ++ (b'$' ∷ x))
                  (sym (append_assoc (decimal (length a)) (b'\r' ∷ b'\n' ∷ []) tail))
              ∙ sym (append_assoc before head tail) in
            rw (fresh, read, fits, mark, number, legal, not_big)
              (rw place at (
                bulk_body-argument (record c { bulklen = some (length a) }) (before ++ head) a rest
                  left split count)))
    ]

-- Every argument is short enough for the protocol.
abbrev pub AreLegal : List Bytes → Type 0
AreLegal [] = Unit {0}
AreLegal (a ∷ args) = (length a ≤ max_bulk) × AreLegal args

bulk_loop-arguments :
    (args : List Bytes) (c : Client) (before rest : Bytes)
    → AreLegal args
    → c.querybuf ≡ before ++ encode_arguments args rest
    → c.bulklen ≡ none
    → c.multibulklen ≡ length args
    → length c.querybuf < 2 ^ 31
    → (after : Bytes) × (bulk_loop (length args) c (length before)
        ≡ leave
            (record c {
              argv = c.argv ++ args;
              multibulklen = 0;
              bulklen = none;
              querybuf = after ++ rest;
            })
            (length after))
unfolding bulk_loop encode_arguments
bulk_loop-arguments [] c before rest legal here fresh count bound =
    (before, same_leave c (sym (append-nil c.argv)) count fresh here)
bulk_loop-arguments (a ∷ args) c before rest (small, legal) here fresh count bound =
    let (after, shorter, round) =
      bulk_round-argument c before a (encode_arguments args rest) (length args) here fresh count
        small bound in
    let d = taken c a (length args) (after ++ encode_arguments args rest) in
    let (last, loop) =
      bulk_loop-arguments args d after rest legal refl refl refl (omega (arith, shorter, bound)) in
    (
      last,
      rw round (
          loop
          ∙ same_leave
              (record c {
                querybuf = last ++ rest;
                multibulklen = 0;
                bulklen = none;
                argv = (c.argv ++ (a ∷ [])) ++ args;
              })
              (append_assoc c.argv (a ∷ []) args) refl refl refl),
    )

-- The line with the number of arguments.
multibulk_line-encode :
    (args : List Bytes) (rest : Bytes) (c : Client)
    → length args ≤ 1024 * 1024
    → c.querybuf ≡ encode args rest
    → length c.querybuf < 2 ^ 31
    → multibulk_line c (strchr c.querybuf b'\r')
      ≡ multibulk_count c (suc (length (decimal (length args)))) (some (pos (length args)))
unfolding multibulk_line encode
multibulk_line-encode args rest c few here bound =
    let tail = encode_arguments args rest in
    let newline = suc (length (decimal (length args))) in
    let read : strchr c.querybuf b'\r' ≡ some newline =
      ap (λ b. strchr b b'\r') here ∙ strchr-counted [] b'*' (length args) tail (omega arith) in
    let mark : get_or c.querybuf 0 0 ≡ b'*' = ap (λ b. get_or b 0 0) here in
    let number : string2ll (take (newline - 1) (drop 1 c.querybuf)) ≡ some (pos (length args)) =
      ap (λ b. string2ll (take (newline - 1) (drop 1 b))) here
      ∙ ap string2ll (take-counted [] b'*' (length args) tail (omega arith))
      ∙ string2ll-decimal (length args) (omega arith) in
    let fits : passes_end (length c.querybuf) (newline + 2) ≡ false =
      passes_end_small (length c.querybuf) (newline + 2) bound
      ∙ (let l = length-counted [] b'*' (length args) tail (omega arith) in
          let h = ap length here in ground arith) in
    rw (read, fits, mark, number) refl

-- The first line of a request, and what it leaves.
abbrev first_line : List Bytes → Bytes
first_line args = b'*' ∷ (decimal (length args) ++ (b'\r' ∷ b'\n' ∷ []))

length-first_line :
    (args : List Bytes) → length (first_line args) ≡ suc (length (decimal (length args))) + 2
length-first_line args = omega (arith, length-append (decimal (length args)) (b'\r' ∷ b'\n' ∷ []))

encode-first_line :
    (args : List Bytes) (rest : Bytes)
    → encode args rest ≡ first_line args ++ encode_arguments args rest
unfolding encode
encode-first_line args rest =
    ap (λ x. b'*' ∷ x)
      (sym (append_assoc (decimal (length args)) (b'\r' ∷ b'\n' ∷ []) (encode_arguments args rest)))

abbrev success : Client → Verdict × Client
success c = (ok, c)

same_done :
    (c : Client) (args : List Bytes) (buf : Bytes) {left : ℕ} {bulk : Option ℕ}
    → c.multibulklen ≡ left
    → c.bulklen ≡ bulk
    → success (record c { argv = args; querybuf = buf; multibulklen = left; bulklen = bulk })
      ≡ success (record c { argv = args; querybuf = buf })
same_done c args buf f g = rw (sym f, sym g) refl

-- A client between requests reads the line with the number first.
process_multibulk-ready :
    (c : Client)
    → c.multibulklen ≡ 0
    → c.argv ≡ []
    → process_multibulk c
      ≡ finish (then_do (multibulk_line c (strchr c.querybuf b'\r')) multibulk_body)
unfolding process_multibulk
process_multibulk-ready c idle none_yet =
    let start : (c.multibulklen == 0) ≡ true = ground arith in rw (start, ap is_empty none_yet) refl

-- On a client that is ready for a request, an encoded request of at most 1024 * 1024 arguments of
-- at most 512 MB is read as its arguments, in a buffer of less than 2^31 bytes, and what follows it
-- stays in the buffer.
pub process_multibulk-encode :
    (args : List Bytes) (rest : Bytes) (c : Client)
    → AreLegal args
    → length args ≤ 1024 * 1024
    → c.querybuf ≡ encode args rest
    → c.argv ≡ []
    → c.multibulklen ≡ 0
    → c.bulklen ≡ none
    → length c.querybuf < 2 ^ 31
    → process_multibulk c ≡ (ok, record c { argv = args; querybuf = rest })
unfolding process_multibulk multibulk_line multibulk_count encode
process_multibulk-encode [] rest c legal few here none_yet idle fresh bound =
    let dropped : drop (suc (length (decimal 0)) + 2) c.querybuf ≡ rest =
      ap (λ n. drop n c.querybuf) (sym (length-first_line []))
      ∙ ap (drop (length (first_line []))) (here ∙ encode-first_line [] rest)
      ∙ drop-append (first_line []) (encode_arguments [] rest) in
    process_multibulk-ready c idle none_yet
    ∙ ap (λ f. finish (then_do f multibulk_body)) (multibulk_line-encode [] rest c few here bound)
    ∙ ap (λ b. success (record c { querybuf = b })) dropped
    ∙ ap (λ a. success (record c { querybuf = rest; argv = a })) none_yet
process_multibulk-encode (a ∷ args) rest c legal few here none_yet idle fresh bound =
    let all = a ∷ args in
    let d = record c { multibulklen = length all } in
    let (after, loop) =
      bulk_loop-arguments all d (first_line all) rest legal (here ∙ encode-first_line all rest)
        fresh refl bound in
    let some_args : (length all == 0) ≡ false = ground arith in
    let in_bound : ltb (1024 * 1024) (length all) ≡ false = ground arith in
    let number : multibulk_count c (suc (length (decimal (length all)))) (some (pos (length all)))
        ≡ go d (length (first_line all)) =
      rw (in_bound, some_args) (ap (go d) (sym (length-first_line all))) in
    process_multibulk-ready c idle none_yet
    ∙ ap (λ f. finish (then_do f multibulk_body))
        (multibulk_line-encode all rest c few here bound ∙ number)
    ∙ ap finish loop
    ∙ ap
        (λ b.
          success
            (record c { argv = c.argv ++ all; querybuf = b; multibulklen = 0; bulklen = none }))
        (drop-append after rest)
    ∙ ap
        (λ p.
          success (record c { argv = p ++ all; querybuf = rest; multibulklen = 0; bulklen = none }))
        none_yet
    ∙ same_done c all rest idle fresh
