-- ===== src/Controller/Calls/Run.antt =====
-- A run of a program against answers, with the calls that it made.
use kube_frontend_forge_cont.Common.{List, [], ◌∷◌, ◌≡◌, refl, ap, All}
use kube_frontend_forge_cont.Controller.Calls.Meets.{Answers, Meets}
use kube_frontend_forge_cont.Controller.Calls.{
  Call, Reply, KubeError, Error, Answer, Prog, done, fail, call, ◌>>=◌, request, or_fail,
}

pub data Outcome (A : Type 0) : Type 0 where
  result : A → Outcome A
  failure : Error → Outcome A

-- An API server that answers each call by what it is asked.
abbrev pub Server : Type 0
Server = (c : Call) → Answer (Reply c)

-- What such a server answers.
abbrev pub answers : Server → Answers
answers server c r = server c ≡ r

unfoldable pub run : {A : Type 0} → Server → Prog A → Outcome A
run server (done a) = result a
run server (fail e) = failure e
run server (call c k) = run server (k (server c))

unfoldable pub trace : {A : Type 0} → Server → Prog A → List Call
trace server (done a) = []
trace server (fail e) = []
trace server (call c k) = c ∷ trace server (k (server c))

-- What every call of a program meets holds of the calls that a run makes.
pub Meets-trace :
    {A : Type 0} (server : Server) (P : Call → Type 0) (Q : A → Type 0) (m : Prog A)
    → Meets (answers server) P Q m
    → All P (trace server m)
unfolding Meets trace
Meets-trace server P Q (done a) h = tt
Meets-trace server P Q (fail e) h = tt
Meets-trace server P Q (call c k) (h, hs) =
    (h, Meets-trace server P Q (k (server c)) (hs (server c) refl))

-- A request that is answered goes on with the answer.
pub run-request :
    {A : Type 0} (server : Server) (c : Call) (e : KubeError → Error) (a : Reply c)
    (f : Reply c → Prog A)
    → server c ≡ Answer.ok a
    → run server (request c e >>= f) ≡ run server (f a)
unfolding run request or_fail ◌>>=◌
run-request server c e a f h = ap (λ r. run server (or_fail e r >>= f)) h

pub trace-request :
    {A : Type 0} (server : Server) (c : Call) (e : KubeError → Error) (a : Reply c)
    (f : Reply c → Prog A)
    → server c ≡ Answer.ok a
    → trace server (request c e >>= f) ≡ c ∷ trace server (f a)
unfolding trace request or_fail ◌>>=◌
trace-request server c e a f h = ap (λ r. c ∷ trace server (or_fail e r >>= f)) h

-- A request by itself is one call, however it is answered.
pub trace-request_alone :
    (server : Server) (c : Call) (e : KubeError → Error) → trace server (request c e) ≡ c ∷ []
unfolding trace request or_fail
trace-request_alone server c e = answered (server c)
  where
    answered :
        (r : Answer (Reply c)) → ◌≡◌ {A = List Call} (c ∷ trace server (or_fail e r)) (c ∷ [])
    answered (Answer.ok a) = refl
    answered (Answer.err k) = refl
