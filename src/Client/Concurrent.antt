-- ===== src/Client/Concurrent.antt =====
-- Calls of `request` (frontend/tenant-dashboard/lib/api/client.ts) that run side by side under
-- `Promise.all`: each of them is sent when it is called, before any answer is received.
-- What `receive` does to the browser does not depend on the other answers, and it is the same for
-- each answer that is denied; so the answers are received in the order of the calls, and only the
-- error of `Promise.all`, the first one to arrive, depends on the order of arrival.
use modera_shield.Base.{String, Option, none, some, List, [], ◌∷◌, length, Result, ok, thrown, ◌≡◌}
use modera_shield.Client.Types.{ReplyType, Reply}
use modera_shield.Client.Browser.{World, send}
use modera_shield.Client.Http.{Env, Options, Fetched, prepare, receive, request}
use modera_shield.Client.Requests.{request_lem}

-- `request` up to its `await`: what it will be answered, and the browser then.
abbrev pub start : Env → (t : ReplyType) → String → Options → World → Fetched (Reply t) × World
start env t path options w =
    (env.fetch (length w.sent) t (prepare env path options w), send (prepare env path options w) w)

-- A call by itself is its start and then its answer.
request-start :
    (env : Env) (t : ReplyType) (path : String) (options : Options) (w : World)
    → request env t path options w
      ≡ receive (start env t path options w).0 (start env t path options w).1
request-start env t path options w = request_lem env t path options w

abbrev pub failure : {A : Type 0} → Result A → Option String
failure (ok a) = none
failure (thrown message) = some message

-- The error of the call that failed first, in the order in which the calls are answered.
abbrev pub first_error : (ReplyType → Option String) → List ReplyType → String
first_error failures [] = ""
first_error failures (t ∷ ts) = elim (failures t) [
  | none ↦ first_error failures ts
  | some message ↦ message
]

-- What `Promise.all` gives: the values if there are all of them, or else that error.
abbrev pub all_or_error : {A : Type 0} → Option A → String → Result A
all_or_error none message = thrown message
all_or_error (some a) message = ok a
