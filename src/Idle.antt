-- ===== src/Idle.antt =====
-- mailwatch/src/mailwatch/email/imap/idle.py: IMAPIdleThread. What the server, the clock and the
-- stop event do in a thread is a list of readings and rounds, in the order in which the thread
-- takes them; delays are in seconds. The callbacks, which raise nothing, are what they are given, in
-- that order. An exception that leaves both loops ends the lists of turns and sessions.
pub mod Manager
pub mod Rounds
mod Tests
use ronzz_nextcloud.Prelude.{
  Bool, List, Option, String, [], false, if◌then◌else◌, leb, ltb, map, min, none, some, true, ℕ,
  ◌&&◌, ◌*◌, ◌++◌, ◌+◌, ◌==◌, ◌^◌, ◌||◌, ◌∷◌,
}
use ronzz_nextcloud.Prelude.Text.{contains}

-- _BASE_RETRY_DELAY, _MAX_RETRY_DELAY, _MAX_RECONNECT_ATTEMPTS and _IDLE_TIMEOUT
abbrev pub base_retry_delay : ℕ
base_retry_delay = 30

abbrev pub max_retry_delay : ℕ
max_retry_delay = 300

abbrev pub max_reconnect_attempts : ℕ
max_reconnect_attempts = 10

abbrev pub idle_timeout : ℕ
idle_timeout = 1_740

pub data Notification : Type 0 where
  exists flags : Notification

-- The callbacks for one line of the server.
unfoldable pub notify : String → List Notification
notify line =
    (if contains "EXISTS" line then exists ∷ [] else [])
    ++ (if contains "FLAGS" line || contains "FETCH" line then flags ∷ [] else [])

-- One turn of the inner loop: the stop event, the time since IDLE began, and what `select` and
-- the read gave: nothing within the interval, a line, or an exception.
pub data Poll : Type 0 where
  quiet broken : Poll
  pushed : String → Poll

pub record Turn : Type 0 where
  pub stop : Bool
  pub elapsed : ℕ
  pub poll : Poll

abbrev pub heard : Poll → List Notification → List Notification
heard quiet rest = rest
heard broken rest = []
heard (pushed line) rest = notify line ++ rest

-- The inner loop, from the command IDLE to DONE.
unfoldable pub listen : List Turn → List Notification
listen [] = []
listen (t ∷ turns) =
    let rest = listen turns in
    if t.stop then [] else if leb idle_timeout t.elapsed then [] else heard t.poll rest

-- One turn of the outer loop: whether IDLE could be sent, the inner loop, and the lines that come
-- with the reply to DONE, if it comes.
pub record Session : Type 0 where
  pub stop : Bool
  pub entered : Bool
  pub turns : List Turn
  pub leftover : Option String

abbrev pub left_over : Option String → List Notification
left_over none = []
left_over (some line) = notify line

unfoldable pub watch : List Session → List Notification
watch [] = []
watch (s ∷ sessions) =
    let rest = watch sessions in
    if s.stop then [] else if s.entered then listen s.turns ++ left_over s.leftover ++ rest else []

-- How an attempt to connect ends: refused by the server (IMAPAuthError), failed by any other
-- exception, connected to a server that has no IDLE, connected without the folder, or watching.
pub data Attempt : Type 0 where
  refused failed without_idle without_folder : Attempt
  watching : List Session → Attempt

pub record Thread : Type 0 where
  pub stopped : Bool
  pub reconnect_count : ℕ
  pub connected : Bool

-- What a thread calls: on_auth_failure, and on_notification.
pub data Call : Type 0 where
  auth_failed : Call
  notified : Notification → Call

-- `_run_idle_loop`: the calls, and the thread afterwards. No exception leaves it.
unfoldable pub run_idle_loop : Attempt → Thread → List Call × Thread
run_idle_loop refused t = (auth_failed ∷ [], record t { stopped = true; connected = false })
run_idle_loop failed t = ([], record t { connected = false })
run_idle_loop without_idle t = ([], record t { reconnect_count = 0; connected = false })
run_idle_loop without_folder t = ([], record t { reconnect_count = 0; connected = false })
run_idle_loop (watching sessions) t =
    (map notified (watch sessions), record t { reconnect_count = 0; connected = false })

-- A round of `_run`: the attempt, and whether the thread is stopped from outside before the wait
-- or within it.
pub record Round : Type 0 where
  pub attempt : Attempt
  pub stop_before : Bool
  pub stop_within : Bool

unfoldable pub retry_delay : ℕ → ℕ
retry_delay count = min (base_retry_delay * 2 ^ count) max_retry_delay

-- The calls of a run, the delays it waits, the rounds it does not come to, and the thread.
pub record Run : Type 0 where
  pub calls : List Call
  pub delays : List ℕ
  pub unused : List Round
  pub thread : Thread

abbrev pub ended : List Call → List Round → Thread → Run
ended calls rounds t = record { calls = calls; delays = []; unused = rounds; thread = t }

abbrev pub before : List Call → ℕ → Run → Run
before calls delay r = record r { calls = calls ++ r.calls; delays = delay ∷ r.delays }

abbrev pub stop_if : Bool → Thread → Thread
stop_if b t = record t { stopped = t.stopped || b }

abbrev pub counted : Thread → Thread
counted t = record t { reconnect_count = t.reconnect_count + 1 }

-- `_run`: it ends when it is stopped, gives up, or comes to the end of the rounds.
unfoldable pub run : List Round → Thread → Run
run [] t = ended [] [] t
run (r ∷ rounds) t =
    let a = run_idle_loop r.attempt t in
    let u = counted (stop_if r.stop_before a.1) in
    let rest = run rounds (stop_if r.stop_within u) in
    if t.stopped
    then ended [] (r ∷ rounds) t
    else if a.1.stopped || r.stop_before
    then ended a.0 rounds (stop_if r.stop_before a.1)
    else if ltb max_reconnect_attempts u.reconnect_count
    then ended a.0 rounds u
    else before a.0 (retry_delay a.1.reconnect_count) rest
