-- ===== src/Runserv/Main.antt =====
-- `main` of runserv.c: the libraries, the arguments and their defaults around `runserv`.
use rcli.Common.{ℕ, Bool, true, Option, none, some, List, not, is_none, if◌then◌else◌}
use rcli.Serv.{Opened, nothing}
use rcli.Runserv.{Tool, Return, ListenAnswer, RoundAnswer, runserv}

-- `params_t`, with the numbers behind the pointers; a text is its address.
pub record Params : Type 0 where
  pub port : Option ℕ
  pub service : Option ℕ
  pub stack : Option ℕ
  pub logfile : Option ℕ
  pub args : Option ℕ

-- The service to load: a text of the arguments, or "rclid".
pub data Service : Type 0 where
  named : ℕ → Service
  rclid : Service

abbrev pub default_to : ℕ → Option ℕ → ℕ
default_to d none = d
default_to d (some v) = v

abbrev pub service_of : Option ℕ → Service
service_of none = rclid
service_of (some a) = named a

-- What `runserv` is called with.
pub record Settings : Type 0 where
  pub port : ℕ
  pub service : Service
  pub stack : ℕ
  pub logs : Bool
  pub args : Option ℕ

abbrev pub settings_of : Params → Settings
settings_of params = record {
  port = default_to 2323 params.port;
  service = service_of params.service;
  stack = default_to 12000 params.stack;
  logs = not (is_none params.logfile);
  args = params.args;
}

-- What the system answers, before `runserv` and in it.
pub record MainAnswer : Type 0 where
  pub dos : Bool
  pub socket_lib : Bool
  pub params : Option Params
  pub signal : Option ℕ
  pub listen : Settings → ListenAnswer
  pub rounds : Settings → List RoundAnswer
  pub task : ℕ

-- `RETURN_*` of `main`, or that it still waits for a connection.
pub data Ending : Type 0 where
  ok error fail waiting : Ending

abbrev pub ending_of : Option Return → Ending
ending_of none = waiting
ending_of (some Return.ok) = ok
ending_of (some Return.error) = error

abbrev pub finish : Option Return × Tool → Ending × Opened × Tool
finish (res, t) = (
  ending_of res,
  if is_none res then record nothing { dos = true; socket_lib = true; args = true } else nothing,
  t,
)

-- The result, what is still open of the libraries and the arguments, and what runserv has left.
unfoldable pub main : MainAnswer → Tool → Ending × Opened × Tool
main a t =
    if not a.dos
    then (fail, nothing, t)
    else if not a.socket_lib
    then (fail, nothing, t)
    else elim a.params [
      | none ↦ (error, record nothing { dos = true; socket_lib = true }, t)
      | some params ↦
          let s = settings_of params in
          finish (runserv a.signal (a.listen s) a.task s.logs (a.rounds s) t)
    ]
