-- ===== src/Sourceadapter/Retry.antt =====
-- internal/sourceadapter/retry.go: `IsConnectError` and `RetryRunner`.
pub mod Laws
use docker_net_dhcp_lab.Prelude.{
  ℕ, ◌+◌, Bool, true, false, not, ◌&&◌, ◌||◌, Option, none, some, List, [], ◌∷◌, if◌then◌else◌,
  Text, codes, has_prefix, suc,
}

-- `strings.Contains`
unfoldable pub occurs : Text → Text → Bool
occurs part [] = has_prefix [] part
occurs part (c ∷ s) = has_prefix (c ∷ s) part || occurs part s

-- `IsConnectError` of an error's text
unfoldable pub is_connect_error : Text → Bool
unfolding occurs
is_connect_error s =
    occurs (codes "exit status 255") s
    && (occurs (codes "connect to host ") s
        || occurs (codes "during banner exchange") s
        || occurs (codes "kex_exchange_identification") s)

-- What one round of the loop of `Run` meets: the error of `Inner.Run`, whether the context is over
-- when it returns, whether `Bound` has passed, and whether the context ends the wait for the next.
pub record Attempt : Type 0 where
  pub error : Option Text
  pub cut_off : Bool
  pub past_bound : Bool
  pub interrupted : Bool

-- what `Run` returns: no error, an error as it came, or one with the time of the retries
pub data Answer : Type 0 where
  answered : Answer
  failed unreachable : Text → Answer

-- one round: an answer and what `down` becomes, or the error that `last` becomes
pub data Round : Type 0 where
  stop : Answer → Bool → Round
  again : Text → Round

-- the tests on an error, past the one on the caller's deadline
unfoldable pub judge_error : Text → Attempt → Bool → Round
judge_error e a down =
    if not (is_connect_error e) || down
    then stop (failed e) down
    else if a.past_bound
    then stop (unreachable e) true
    else if a.interrupted
    then stop (failed e) down
    else again e

unfoldable pub round : Option Text → Option Text → Attempt → Bool → Round
unfolding judge_error
round none last a down = stop answered false
round (some e) none a down = judge_error e a down
round (some e) (some l) a down = if a.cut_off then stop (failed l) down else judge_error e a down

-- the answer, `down` and the number of attempts; `none` when the attempts of the list do not end it
pub record Ended : Type 0 where
  pub answer : Answer
  pub down : Bool
  pub attempts : ℕ

abbrev one_more : Option Ended → Option Ended
one_more none = none
one_more (some r) = some (record r { attempts = suc r.attempts })

next : Round → Option Ended → Option Ended
next (stop a d) later = some (record { answer = a; down = d; attempts = 1 })
next (again e) later = one_more later

abbrev last_of : Round → Option Text
last_of (stop a d) = none
last_of (again e) = some e

-- the loop of `RetryRunner.Run`
unfoldable pub retry : Option Text → Bool → List Attempt → Option Ended
unfolding next round
retry last down [] = none
retry last down (a ∷ tries) =
    let later = retry (last_of (round a.error last a down)) down tries in
    next (round a.error last a down) later
