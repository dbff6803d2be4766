-- ===== src/Kubelet/PodWorkers/Deadlock.antt =====
-- A killed pod's worker and a call that waits for a place in its channel wait for one another: the
-- call holds the lock that the worker needs to go on.
use mini_k8s.Base.{
  ◌==◌, nat_Eq, string_Eq, Bool-cases, Option-cases, length, lookup, lookup-insert, ◌≤◌, ◌≡◌, refl,
  ◌∙◌, inl, inr, true, false, Option, some, List, [], ◌∷◌, arith,
}
use mini_k8s.Api.{Uid, Time}
use mini_k8s.Kubelet.Types.{RuntimePodStatus}
use mini_k8s.Kubelet.PodWorkers.Bounds.{take_action_work, take_action_stopped}
use mini_k8s.Kubelet.PodWorkers.{
  UpdatePodOptions, Worker, PodWorkers, channel_size, send, handle, work_on, Action, call, resume,
  work, finish, take_action, run,
}

-- A call waits at the full channel of a worker that has taken its kill.
pub record IsStuck (uid : Uid) (o : UpdatePodOptions) (w : Worker) (pw : PodWorkers) : Type 0 where
  pub held : pw.waiting ≡ some (uid, o)
  pub present : lookup uid pw.pod_updates ≡ some w
  pub stopping : w.stopping ≡ true
  pub full : channel_size ≤ length w.queue

module _ (uid : Uid) (o : UpdatePodOptions) (w : Worker) where
  work_on-elsewhere :
      (read : Option (Option RuntimePodStatus)) (now : Time) (other : Uid) (x : Worker)
      (pw : PodWorkers)
      → (other == uid) ≡ false
      → (lookup uid (work_on read now other x pw).1.pod_updates ≡ lookup uid pw.pod_updates)
        × ((work_on read now other x pw).1.waiting ≡ pw.waiting)
  unfolding work_on
  work_on-elsewhere read now other x pw ne =
      elim x.queue
          as (λ q.
            x.queue ≡ q
            → (lookup uid (work_on read now other x pw).1.pod_updates ≡ lookup uid pw.pod_updates)
              × ((work_on read now other x pw).1.waiting ≡ pw.waiting)) [
                | [] ↦ λ e. rw (e, work_on) (refl, refl)
                | p ∷ rest ↦ λ e.
                    rw (e, work_on)
                      (
                        ground (
                          arith,
                          lookup-insert other uid (handle read now p (record x { queue = rest })).1
                              pw.pod_updates,
                        ),
                        refl,
                      )
              ]
        refl

  -- The call stays where it is: the channel is still full.
  resume-IsStuck :
      (pw : PodWorkers) → IsStuck uid o w pw → IsStuck uid o w (take_action resume pw).1
  unfolding take_action send
  resume-IsStuck pw v = ground (arith, v.held, v.present, v.full, v.stopping)

  work-IsStuck :
      (other : Uid) (read : Option (Option RuntimePodStatus)) (now : Time) (pw : PodWorkers)
      → IsStuck uid o w pw
      → IsStuck uid o w (take_action (work other read now) pw).1
  work-IsStuck other read now pw v = elim (Option-cases (lookup other pw.pod_updates)) [
    | inl missing ↦ unfold take_action in rw (missing, take_action) v
    | inr (x, there) ↦ elim (Bool-cases x.stopping) [
      | inl stopped ↦ rw (take_action_stopped other read now x pw there stopped) v
      | inr going ↦ elim (Bool-cases (other == uid)) [
        | inl same ↦
            let here : other ≡ uid = (string_Eq.beq_iff other uid).0 same in
            absurd (ground (arith, v.present, v.stopping))
        | inr ne ↦
            let moved = work_on-elsewhere read now other x pw ne in
            rw (take_action_work other read now x pw there going) (record {
              held = moved.1 ∙ v.held;
              present = moved.0 ∙ v.present;
              stopping = v.stopping;
              full = v.full;
            })
      ]
    ]
  ]

  take_action-IsStuck :
      (a : Action) (pw : PodWorkers) → IsStuck uid o w pw → IsStuck uid o w (take_action a pw).1
  unfolding take_action
  take_action-IsStuck (call pod t) pw v = rw (v.held, take_action) v
  take_action-IsStuck resume pw v = resume-IsStuck pw v
  take_action-IsStuck (work other read now) pw v = work-IsStuck other read now pw v
  take_action-IsStuck (finish other) pw v = rw (v.held, take_action) v

  -- Once a call waits at the full channel of a worker that has taken its kill, no schedule ends the
  -- wait: the call keeps the lock, and the worker its entry.
  pub run-IsStuck :
      (actions : List Action) (pw : PodWorkers)
      → IsStuck uid o w pw
      → IsStuck uid o w (run actions pw).1
  unfolding run
  run-IsStuck [] pw v = v
  run-IsStuck (a ∷ actions) pw v =
      run-IsStuck actions (take_action a pw).1 (take_action-IsStuck a pw v)
