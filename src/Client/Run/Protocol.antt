-- ===== src/Client/Run/Protocol.antt =====
-- What a run of the client may do, as a machine.

use mathlib.Core.List.{map}
use krelay.Prelude.{
  ◌≡◌, refl, true, false, List, [], ◌∷◌, ◌++◌, Bytes, codes, Option, none, some, Result, ok, err,
  inl, inr, Bool-cases,
}
use krelay.Kube.Job.{
  JobAction, created, removed, not_removed, stream_closed, Deletion, deleted, not_found,
  delete_failed, JobError, ServerJob, run_server_job, close_job,
}
use krelay.Kube.Job.Cleanup.{
  CleanedUp, nothing_created, deleted_again, gone_already, left_behind, Clean, run_server_job-Clean,
}
use krelay.Client.Forwarders.{PortForwarder}
use krelay.Client.Run.{
  Options, World, Failure, RunAction, bound, job, heartbeats_started, socks5_started,
  listener_closed, forwarder_started, any_bound, bound_of, prepare, listen_all, after_job,
  after_prepare, run, after_proxy_job, run_proxy,
}

-- Nothing done; at least one address bound; a job in the cluster, whose start is not finished, with the
-- client at work, or with the connection to its pod closed; the job gone, or never made and the listener closed; the job left in the cluster by a failed
-- deletion.
pub data Phase : Type 0 where
  fresh listening over : Phase
  has_job serving disconnected abandoned : Bytes → Bytes → Phase

pub data Step : Phase → RunAction → Phase → Type 0 where
  bind_first : {at : Bytes × Bytes} → Step fresh (bound at) listening
  bind_more : {at : Bytes × Bytes} → Step listening (bound at) listening
  create : {ns name : Bytes} → Step listening (job (created ns name)) (has_job ns name)
  fail : {ns name : Bytes} → Step (has_job ns name) (job (removed ns name)) over
  fail_behind :
      {ns name : Bytes} → Step (has_job ns name) (job (not_removed ns name)) (abandoned ns name)
  beat : {ns name : Bytes} → Step (has_job ns name) heartbeats_started (serving ns name)
  socks5 : {ns name : Bytes} → Step (serving ns name) socks5_started (serving ns name)
  forward :
      {ns name : Bytes} {p : PortForwarder}
      → Step (serving ns name) (forwarder_started p) (serving ns name)
  disconnect : {ns name : Bytes} → Step (serving ns name) (job stream_closed) (disconnected ns name)
  remove : {ns name : Bytes} → Step (disconnected ns name) (job (removed ns name)) over
  remove_behind :
      {ns name : Bytes}
      → Step (disconnected ns name) (job (not_removed ns name)) (abandoned ns name)
  unlisten : Step listening listener_closed over
  unlisten_last : Step over listener_closed over
  unlisten_behind : {ns name : Bytes} → Step (abandoned ns name) listener_closed (abandoned ns name)

pub data Trace : Phase → List RunAction → Phase → Type 0 where
  here : {p : Phase} → Trace p [] p
  step :
      {p q r : Phase} {a : RunAction} {acts : List RunAction}
      → Step p a q
      → Trace q acts r
      → Trace p (a ∷ acts) r

-- The phases at the end: no job is in the cluster, or its deletion failed.
pub data Ends : Deletion → Phase → Type 0 where
  still_fresh : {d : Deletion} → Ends d fresh
  still_listening : {d : Deletion} → Ends d listening
  all_over : {d : Deletion} → Ends d over
  job_left : {ns name : Bytes} → Ends delete_failed (abandoned ns name)

-- The phases behind the job.
pub data Done : Deletion → Phase → Type 0 where
  never_made : {d : Deletion} → Done d listening
  job_gone : {d : Deletion} → Done d over
  job_stays : {ns name : Bytes} → Done delete_failed (abandoned ns name)

Trace-append :
    {p q r : Phase} {acts bs : List RunAction}
    → Trace p acts q
    → Trace q bs r
    → Trace p (acts ++ bs) r
Trace-append here more = more
Trace-append (step first path) more = step first (Trace-append path more)

abbrev pub Leaves : Deletion → Phase → List RunAction → Type 0
Leaves d p acts = (q : Phase) × Trace p acts q × Ends d q

append-Leaves :
    {d : Deletion} {p q : Phase} {acts bs : List RunAction}
    → Trace p acts q
    → Leaves d q bs
    → Leaves d p (acts ++ bs)
append-Leaves path (r, more, ends) = (r, Trace-append path more, ends)

bind_all : (bs : List (Option (Bytes × Bytes))) → Trace listening (bound_of bs) listening
bind_all [] = here
bind_all (none ∷ bs) = bind_all bs
bind_all (some at ∷ bs) = step bind_more (bind_all bs)

bind_some :
    (bs : List (Option (Bytes × Bytes))) → any_bound bs ≡ true → Trace fresh (bound_of bs) listening
bind_some [] e = absurd cc
bind_some (none ∷ bs) e = bind_some bs e
bind_some (some at ∷ bs) e = step bind_first (bind_all bs)

bind_none : (bs : List (Option (Bytes × Bytes))) → any_bound bs ≡ false → bound_of bs ≡ []
bind_none [] e = refl
bind_none (none ∷ bs) e = bind_none bs e
bind_none (some at ∷ bs) e = absurd cc

-- What RunServerJob did when it fails.
failed_job :
    {d : Deletion} (acts : List JobAction)
    → CleanedUp d acts
    → (q : Phase) × Trace listening (map job acts) q × Done d q
failed_job _ nothing_created = (listening, here, never_made)
failed_job _ deleted_again = (over, step create (step fail here), job_gone)
failed_job _ gone_already = (over, step create (step fail here), job_gone)
failed_job _ left_behind = (abandoned _ _, step create (step fail_behind here), job_stays)

-- And when it returns a handle.
made_job :
    (j : ServerJob) (acts : List JobAction)
    → acts ≡ created j.namespace j.name ∷ []
    → Trace listening (map job acts) (has_job j.namespace j.name)
made_job j acts e = rw e (step create here)

forward_all :
    {ns name : Bytes} (ps : List PortForwarder)
    → Trace (serving ns name) (map forwarder_started ps) (serving ns name)
forward_all [] = here
forward_all (p ∷ ps) = step forward (forward_all ps)

close_all :
    (d : Deletion) (j : ServerJob)
    → (q : Phase) × Trace (serving j.namespace j.name) (map job (close_job d j [])) q × Done d q
unfolding close_job
close_all deleted j = (over, step disconnect (step remove here), job_gone)
close_all not_found j = (over, step disconnect (step remove here), job_gone)
close_all delete_failed j = (abandoned _ _, step disconnect (step remove_behind here), job_stays)

Done-Ends : {d : Deletion} {q : Phase} → Done d q → Ends d q
Done-Ends never_made = still_listening
Done-Ends job_gone = all_over
Done-Ends job_stays = job_left

unlisten_at_end : {d : Deletion} {q : Phase} → Done d q → Leaves d q (listener_closed ∷ [])
unlisten_at_end never_made = (over, step unlisten here, all_over)
unlisten_at_end job_gone = (over, step unlisten_last here, all_over)
unlisten_at_end job_stays = (abandoned _ _, step unlisten_behind here, job_left)

module _ (w : World) where
  after_job-Leaves :
      (ps : List PortForwarder) (log : List RunAction)
      (x : Result JobError ServerJob × List JobAction)
      → Clean w.answers.deletion x
      → Trace fresh log listening
      → Leaves w.answers.deletion fresh (after_job w ps log x).1
  after_job-Leaves ps log (err e, acts) clean path =
      let (q, more, ends) = failed_job acts clean in (q, Trace-append path more, Done-Ends ends)
  after_job-Leaves ps log (ok j, acts) clean path =
      let (q, more, ends) = close_all w.answers.deletion j in
      append-Leaves path (
        append-Leaves (made_job j acts clean)
          (q, step beat (Trace-append (forward_all ps) more), Done-Ends ends))

  after_prepare-Leaves :
      (x : Result Failure (List PortForwarder))
      → Leaves w.answers.deletion fresh (after_prepare w x).1
  unfolding run_server_job
  after_prepare-Leaves (err e) = (fresh, here, still_fresh)
  after_prepare-Leaves (ok ps) =
      let bs = listen_all w [] ps in
      elim (Bool-cases (any_bound bs)) [
        | inl e ↦ rw e (
            after_job-Leaves ps (bound_of bs) (run_server_job w.answers [])
              (run_server_job-Clean w.answers) (bind_some bs e))
        | inr e ↦ rw (e, bind_none bs e) (fresh, here, still_fresh)
      ]

  -- Whatever the arguments are and the cluster answers, a run of the client is a path of the machine
  -- that ends without a job in the cluster, or, only if the API answers the deletion of the job with an
  -- error other than `not found`, with that job left behind and the error logged. It binds its
  -- addresses, at least one of them before it creates a job; it creates one job at most and asks once
  -- for its deletion; forwarders start only behind the heartbeats, and those only behind the job; and
  -- once the heartbeats have started it closes the connection before it asks for the deletion.
  pub run-Leaves :
      (o : Options) (args : List Bytes) → Leaves w.answers.deletion fresh (run w o args).1
  unfolding run
  run-Leaves o args = after_prepare-Leaves (prepare w o args)

  after_proxy_job-Leaves :
      (at : Bytes × Bytes) (x : Result JobError ServerJob × List JobAction)
      → Clean w.answers.deletion x
      → Leaves w.answers.deletion fresh (after_proxy_job w at x).1
  after_proxy_job-Leaves at (err e, acts) clean =
      let (q, more, ends) = failed_job acts clean in
      append-Leaves (step bind_first more) (unlisten_at_end ends)
  after_proxy_job-Leaves at (ok j, acts) clean =
      let (q, more, ends) = close_all w.answers.deletion j in
      append-Leaves (step bind_first (made_job j acts clean))
        (append-Leaves (step beat (step socks5 more)) (unlisten_at_end ends))

  -- A run of the proxy command is a path of the same machine, whatever its address is and the cluster
  -- answers: it creates a job only behind its bound listener, and one at most; starts heartbeats only
  -- behind the job, and the SOCKS5 server only behind them; and once they have started it closes the
  -- connection before it asks for the deletion of the job. It ends without a job in the cluster, or,
  -- only if the API answers the deletion with an error other than `not found`, with that job left behind
  -- and the error logged.
  pub run_proxy-Leaves :
      (listen_addr : Bytes) → Leaves w.answers.deletion fresh (run_proxy w listen_addr).1
  unfolding run_proxy
  run_proxy-Leaves listen_addr =
      let at : Bytes × Bytes = (codes "tcp", listen_addr) in
      elim (Bool-cases (w.binds [] at)) [
        | inl e ↦ rw e (
            after_proxy_job-Leaves at (run_server_job w.answers [])
              (run_server_job-Clean w.answers))
        | inr e ↦ rw e (fresh, here, still_fresh)
      ]
