-- ===== src/Server.antt =====
-- core/trading_server.py: the HTTP surface over the broker. A request is its path, its
-- Content-Length and its body; the answer is the status code, and an exception that the handler
-- does not catch leaves no answer. The text of the answers is left out.
pub mod Status
use keel_trader.Base.{
  ℕ, nat_eq, Bool, true, false, not, Option, none, some, List, [], ◌∷◌, if◌then◌else◌, same,
}
use keel_trader.Base.Text.{Text, codes, text_eq}
use keel_trader.Double.{Double}
use keel_trader.Outcome.{
  Error, Result, ok, err, value_error, runtime_error, order_rejected, bad_request, live_forbidden,
  key_error, zero_division, index_error, struct_error, overflow_error, file_not_found, system_exit,
  out_of_turns,
}
use keel_trader.Singleton.State.{Order, World, Action, raise, ◌>>=◌, or_raise, pure}
use keel_trader.Broker.{Executor, submit_order}

-- The value under a key that is read by `str(…)`, which takes any value.
abbrev pub TextField : Type 0
TextField = Option Text

-- The value under a key that is read by `float(…)`: none, one on which it raises a `ValueError` or a
-- `TypeError`, an integer beyond the range of a float, or one that it turns into a number.
pub data Amount (F : Type 0) : Type 0 where
  no_amount no_number too_large : Amount F
  amount : F → Amount F

pub data Payload (F : Type 0) : Type 0 where
  not_dict : Payload F
  fields : (symbol side : TextField) → (qty price : Amount F) → Payload F

-- What `json.loads` makes of the body.
pub data Body (F : Type 0) : Type 0 where
  bad_json : Body F
  json : Payload F → Body F

-- The Content-Length: none or empty, a number, or a text on which `int(…)` raises.
pub data Length : Type 0 where
  no_length bad_length : Length
  length : ℕ → Length

-- `float(payload[key])`, under the `except` clause of `handle_order`, which does not catch the
-- `OverflowError`.
abbrev pub required : {F : Type 0} → Amount F → Action F F
required (amount x) = pure x
required too_large = raise overflow_error
required _ = raise bad_request

-- The `except` clauses of `do_POST`, by the class of the exception: `OrderRejectedError`, the
-- refusals to run live and the guard's are `RuntimeError`s; `OrderRequestError` is a
-- `ValueError`, the others of which are not caught.
abbrev pub status_of_error : Error → Result ℕ
status_of_error bad_request = ok 400
status_of_error order_rejected = ok 400
status_of_error runtime_error = ok 409
status_of_error live_forbidden = ok 409
status_of_error value_error = err value_error
status_of_error key_error = err key_error
status_of_error zero_division = err zero_division
status_of_error index_error = err index_error
status_of_error struct_error = err struct_error
status_of_error overflow_error = err overflow_error
status_of_error file_not_found = err file_not_found
status_of_error (system_exit code) = err (system_exit code)
status_of_error out_of_turns = err out_of_turns

abbrev pub is_route : Text → Bool
is_route path = same path (codes "/order")

module _ {F : Type 0} ⦃d : Double F⦄ where
  -- `TradingServer.handle_order`
  unfoldable pub handle_order : Executor F → Payload F → Action F (Order F)
  handle_order execute not_dict = raise bad_request
  handle_order execute (fields symbol side qty price) = do
    s ← or_raise symbol bad_request
    t ← or_raise side bad_request
    q ← required qty
    p ← required price
    submit_order execute s t q p

  abbrev pub answer : Result (Order F) × World F → Result ℕ × World F
  answer (ok o, w) = (ok 200, w)
  answer (err e, w) = (status_of_error e, w)

  -- An empty body counts as `{}`.
  abbrev pub body_at : Length → Body F → Body F
  body_at (length n) b = if same n 0 then json (fields none none no_amount no_amount) else b
  body_at _ b = json (fields none none no_amount no_amount)

  -- The part of `do_POST` past the route. The decoding of the body raises a `ValueError` that no
  -- clause catches.
  abbrev pub respond : Executor F → Body F → Action F ℕ
  respond execute bad_json w = (err value_error, w)
  respond execute (json payload) w = answer (handle_order execute payload w)

  -- `do_POST`
  unfoldable pub do_post : Executor F → Text → Length → Body F → Action F ℕ
  do_post execute path bad_length body w =
      if is_route path then (err value_error, w) else (ok 404, w)
  do_post execute path len body w =
      if is_route path then respond execute (body_at len body) w else (ok 404, w)
