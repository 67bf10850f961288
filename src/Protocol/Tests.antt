-- ===== src/Protocol/Tests.antt =====
-- Runs of the request parsers, and their theorems at concrete buffers.
use myownproject.Base.{
  Bool, if◌then◌else◌, ap, length, ◌≡◌, refl, true, false, Option, none, some, List, [], ◌∷◌, ◌++◌,
  arith,
}
use myownproject.Util.{codes, string2ll, parse_digits, parse_loop, parse_end}
use myownproject.Util.Decimal.{decimal, decimal_fuel}
use myownproject.Protocol.State.{
  Bytes, Client, undetermined, ok, strchr, set_protocol_error, reset_client, expected_dollar,
}
use myownproject.Protocol.Inline.{inline_args, inline_line, process_inline}
use myownproject.Protocol.Inline.OneLine.{line_done, process_inline-crlf, process_inline-lf}
use myownproject.Protocol.Multibulk.{
  passes_end, multibulk_count, multibulk_line, bulk_length, bulk_line, bulk_header, bulk_body,
  bulk_round, bulk_loop, process_multibulk,
}
use myownproject.Protocol.Multibulk.RoundTrip.{
  encode_argument, encode_arguments, encode, process_multibulk-encode,
}
use myownproject.Protocol.Multibulk.Rounds.{Parsed, process_multibulk-Parsed}
use myownproject.Protocol.Multibulk.Reader.{read_request, process_multibulk-read_request}
use myownproject.Protocol.Multibulk.Chunks.{feed, process_multibulk-feed}
use myownproject.Protocol.Input.{Executed, determine, after_parse, input_loop, process_input}
use myownproject.Util.Memory.{same_text}
use myownproject.Protocol.Input.Dispatch.{is_quit, quit_client, dispatch}
use myownproject.Protocol.Input.Rounds.{process_input-enough}
use myownproject.Protocol.Input.Requests.{encode_all}

abbrev holding : Bytes → Client
holding buf = record {
  querybuf = buf;
  argv = [];
  reqtype = undetermined;
  multibulklen = 0;
  bulklen = none;
  errors = [];
  close_after_reply = false;
  slave = false;
  blocked = false;
  jump = false;
  reply_skip = false;
  reply_skip_next = false;
  paused = false;
  unixtime = 7;
  repl_ack_time = 0;
}

program : Unit {0}
unfolding string2ll parse_digits parse_loop parse_end decimal decimal_fuel strchr set_protocol_error
    same_text is_quit dispatch passes_end reset_client inline_args inline_line process_inline
    multibulk_count multibulk_line bulk_length bulk_line bulk_header bulk_body bulk_round bulk_loop
    process_multibulk encode_argument encode_arguments encode determine after_parse input_loop
    process_input encode_all
program = tt

-- A line is one argument.
abbrev one_argument : Bytes → Option (List Bytes)
one_argument line = some (line ∷ [])

-- Every command but QUIT is executed and touches no field of the model.
abbrev others : Client → Executed
others c = record { client = c; executed = true; freed = false }

abbrev execute : Client → Executed
execute = dispatch others

abbrev ping : List Bytes
ping = codes "PING" ∷ []

abbrev quit : List Bytes
quit = codes "QUIT" ∷ []

abbrev set_key : List Bytes
set_key = codes "SET" ∷ codes "k" ∷ [] ∷ []

abbrev pipelined : Client
unfolding encode_all encode encode_arguments encode_argument decimal decimal_fuel
pipelined = holding (encode_all (ping ∷ quit ∷ set_key ∷ []))

encode_runs :
    encode set_key []
    ≡ codes "*3"
      ++ (13
          ∷ 10
          ∷ (codes "$3"
              ++ (13
                  ∷ 10
                  ∷ (codes "SET"
                      ++ (13
                          ∷ 10
                          ∷ (codes "$1"
                              ++ (13
                                  ∷ 10
                                  ∷ (codes "k"
                                      ++ (13
                                          ∷ 10
                                          ∷ (codes "$0" ++ (13 ∷ 10 ∷ 13 ∷ 10 ∷ [])))))))))))
unfolding program
encode_runs = refl

-- The request behind the QUIT is not handed over.
pipeline_runs : (process_input one_argument execute pipelined).0 ≡ ping ∷ quit ∷ []
unfolding program
pipeline_runs = refl

-- An argument that does not start with a dollar sign closes the client.
dollar_runs :
    (process_multibulk (holding (codes "*1" ++ (13 ∷ 10 ∷ codes "+4" ++ (13 ∷ 10 ∷ []))))).1.errors
    ≡ expected_dollar b'+' ∷ []
unfolding program
dollar_runs = refl

querybuf-dispatch : (c : Client) → (execute c).client.querybuf ≡ c.querybuf
unfolding dispatch
querybuf-dispatch c = go (is_quit c)
  where
    go : (b : Bool) → (if b then quit_client c else others c).client.querybuf ≡ c.querybuf
    go true = refl
    go false = refl

process_multibulk-encode_example :
    process_multibulk (holding (encode set_key (codes "PING")))
    ≡ (ok, record (holding (codes "PING")) { argv = set_key })
unfolding encode decimal decimal_fuel
process_multibulk-encode_example =
    process_multibulk-encode set_key (codes "PING") (holding (encode set_key (codes "PING")))
      (omega arith, (omega arith, (omega arith, tt))) (omega arith) refl refl refl refl
      (omega arith)

-- The first piece ends inside the first argument.
abbrev piece : Client
piece = holding (codes "*1" ++ (13 ∷ 10 ∷ (codes "$4" ++ (13 ∷ 10 ∷ codes "PI"))))

abbrev waiting : Client
waiting = record (holding (codes "PI")) { multibulklen = 1; bulklen = some 4 }

process_multibulk-feed_example :
    process_multibulk (feed waiting (codes "NG" ++ (13 ∷ 10 ∷ [])))
    ≡ process_multibulk (feed piece (codes "NG" ++ (13 ∷ 10 ∷ [])))
unfolding program
process_multibulk-feed_example =
    process_multibulk-feed piece waiting (codes "NG" ++ (13 ∷ 10 ∷ [])) (omega arith) refl refl

process_multibulk-Parsed_example : Parsed piece (process_multibulk piece)
process_multibulk-Parsed_example = process_multibulk-Parsed piece

process_multibulk-read_request_example : process_multibulk piece ≡ read_request piece
process_multibulk-read_request_example = process_multibulk-read_request piece (omega arith)

process_input-enough_example :
    input_loop one_argument execute 99 piece ≡ process_input one_argument execute piece
process_input-enough_example =
    process_input-enough one_argument execute (λ c. omega (arith, ap length (querybuf-dispatch c)))
      99 piece (omega arith)

process_inline-crlf_example :
    process_inline one_argument (holding (codes "PING" ++ (13 ∷ 10 ∷ codes "*1")))
    ≡ line_done
        (holding (codes "PING" ++ (13 ∷ 10 ∷ codes "*1")))
        4
        (codes "*1")
        (some (codes "PING" ∷ []))
process_inline-crlf_example =
    process_inline-crlf one_argument (holding (codes "PING" ++ (13 ∷ 10 ∷ codes "*1")))
      (codes "PING") (codes "*1")
      (refl, omega arith, (refl, omega arith, (refl, omega arith, (refl, omega arith, tt)))) refl

-- The star of the next request is lost.
process_inline-lf_example :
    process_inline one_argument (holding (codes "PING" ++ (10 ∷ codes "*1")))
    ≡ line_done
        (holding (codes "PING" ++ (10 ∷ codes "*1")))
        4
        (codes "1")
        (some (codes "PING" ∷ []))
process_inline-lf_example =
    process_inline-lf one_argument (holding (codes "PING" ++ (10 ∷ codes "*1"))) (codes "PING")
      (codes "1") b'*'
      (refl, omega arith, (refl, omega arith, (refl, omega arith, (refl, omega arith, tt)))) refl
      refl
