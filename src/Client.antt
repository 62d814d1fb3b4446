-- ===== src/Client.antt =====
-- examples/stress_client.py: the requests that the load generator sends, what it counts and reports.
pub mod Percentiles
pub mod Agreeing
use vomero_sandbox.Common.{
  ℕ, zero, suc, ◌+◌, ◌-◌, ◌*◌, ◌/◌, ◌%◌, ◌≡◌, Bool, true, false, Option, none, some, List, [], ◌∷◌,
  ◌++◌, ℤ, pos, leb_ℤ, Text, codes, decimal, text_eq, ◌==◌, leb, length, if◌then◌else◌,
}
use vomero_sandbox.Errors.{Outcome, ok, raise}
use vomero_sandbox.Server.Handling.{Payload}
use vomero_sandbox.Server.Jobs.{job_json}
use vomero_sandbox.Json.{Json, Items, nil, cons, Fields, field, end, find_field}

-- `list(range(size))` from `i` on, and `" ".join(f"w{i % 64}" for i in range(size))`.
unfoldable pub range_from : ℕ → ℕ → Items
range_from i zero = nil
range_from i (suc n) = cons (Json.num (pos i)) (range_from (i + 1) n)

abbrev pub word : ℕ → Text
word i = codes "w" ++ decimal (i % 64)

unfoldable pub words_from : ℕ → ℕ → Text
words_from i zero = []
words_from i (suc zero) = word i
words_from i (suc (suc n)) = word i ++ 32 ∷ words_from (i + 1) (suc n)

-- The package of a request: `mix` alternates.
unfoldable pub chosen_package : Text → ℕ → Text
chosen_package package_name index =
    if text_eq package_name (codes "mix")
    then (if index % 2 == 0 then codes "stats" else codes "wordcount")
    else package_name

-- `make_payload`, over `json.dumps`.
unfoldable pub make_payload : (Json → Text) → Text → ℕ → ℕ → Json
unfolding range_from words_from chosen_package
make_payload dumps package_name size index =
    if text_eq (chosen_package package_name index) (codes "stats")
    then Json.obj (
        field (codes "package") (Json.str (codes "stats")) (
          field (codes "files")
            (Json.obj
              (field (codes "input.json") (Json.str (dumps (Json.arr (range_from 0 size)))) end))
            end))
    else Json.obj (
        field (codes "package") (Json.str (codes "wordcount")) (
          field (codes "files")
            (Json.obj (field (codes "input.txt") (Json.str (words_from 0 size)) end))
            (field (codes "env")
              (Json.obj (field (codes "RUN_TAG") (Json.str (codes "stress")) end)) end)))

-- `bool(v)`, of all values but a float that is zero.
unfoldable pub truth : Json → Bool
truth Json.null = false
truth (Json.bool b) = b
truth (Json.num (pos zero)) = false
truth (Json.str []) = false
truth (Json.arr nil) = false
truth (Json.obj end) = false
truth _ = true

-- What `urlopen` does with a request: the parsed body of its response, the `HTTPError` of a status,
-- or any other exception, be it in the transport or in the body.
pub data Reply : Type 0 where
  responded : Json → Reply
  http_error : ℕ → Reply
  broken : Reply

-- What comes back for an answer of the server, by whether it arrives whole within the timeout: else
-- `urlopen` or `read` raises. The dict of a result is sent as JSON, and `urlopen` raises for a status
-- that is no success.
unfoldable pub reply_of : Bool → ℕ → Payload → Reply
unfolding job_json
reply_of false code p = Reply.broken
reply_of true code (Payload.result x) =
    if code == 200 then Reply.responded (job_json x) else Reply.http_error code
reply_of true code _ = Reply.http_error code

-- The note of `fire_one`, without its words.
pub data Note : Type 0 where
  sandbox : Json → Note
  status : ℕ → Note
  exception : Note

-- `data.get(key, default)`, where `data` may be no dict.
abbrev pub field_of : Text → Json → Option Json → Option Json
field_of k (Json.obj d) default = elim (find_field k d) [ none ↦ default | some v ↦ some v ]
field_of k _ default = none

abbrev pub judged : Option Json → Option Json → Bool × Note
judged (some v) (some name) = (truth v, Note.sandbox name)
judged _ _ = (false, Note.exception)

-- `fire_one`, without the time that it took.
unfoldable pub fire_one : Reply → Bool × Note
unfolding truth find_field
fire_one (Reply.responded body) =
    judged (field_of (codes "ok") body (some Json.null))
      (field_of (codes "sandbox_id") body (some (Json.str [])))
fire_one (Reply.http_error code) = (false, Note.status code)
fire_one Reply.broken = (false, Note.exception)

-- The variables `oks`, `fails` and `latencies`, in the order in which the futures complete.
pub record Tally : Type 0 where
  pub oks : ℕ
  pub fails : ℕ
  pub latencies : List ℤ

unfoldable pub count_result : Bool → ℤ → Tally → Tally
count_result good dt t = record {
  oks = if good then t.oks + 1 else t.oks;
  fails = if good then t.fails else t.fails + 1;
  latencies = t.latencies ++ dt ∷ [];
}

unfoldable pub count_results : List (Bool × ℤ) → Tally → Tally
unfolding count_result
count_results [] t = t
count_results ((good, dt) ∷ rs) t = count_results rs (count_result good dt t)

-- `latencies.sort()`
unfoldable pub insert_time : ℤ → List ℤ → List ℤ
insert_time v [] = v ∷ []
insert_time v (x ∷ xs) = let rest = insert_time v xs in if leb_ℤ v x then v ∷ x ∷ xs else x ∷ rest

unfoldable pub sort_times : List ℤ → List ℤ
unfolding insert_time
sort_times [] = []
sort_times (x ∷ xs) = insert_time x (sort_times xs)

abbrev pub time_at : List ℤ → ℕ → ℤ
time_at [] i = pos 0
time_at (x ∷ xs) zero = x
time_at (x ∷ xs) (suc i) = time_at xs i

abbrev pub min : ℕ → ℕ → ℕ
min a b = if leb a b then a else b

-- `percentile`, at the fraction `num / den`.
unfoldable pub percentile : List ℤ → ℕ → ℕ → ℤ
percentile vals num den = time_at vals (min (length vals - 1) (num * length vals / den))
