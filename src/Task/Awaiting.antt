-- ===== src/Task/Awaiting.antt =====
-- An awaited task runs on the scheduler, hands back its awaiter once, and its frame is destroyed once.
use libsimplenet.Base.{ℕ, ◌==◌, ◌≡◌, refl, true, none, some, ◌++◌, if◌then◌else◌, arith}
use libsimplenet.IoOps.Waiting.{Scheduler}
use libsimplenet.Task.{
  Promise, Consumed, value, rethrown, unavailable, Task, consume_result, final_suspend,
  await_suspend, wired, await_resume, destroy,
}

module _ {W A : Type 0} (resume : ℕ → W → W) (handle awaiting : ℕ) (own : Scheduler W)
    (child : Promise W A) (w : W) where
  -- A child without a scheduler that a frame on the scheduler `own` awaits is scheduled there, and the
  -- awaiting frame stays suspended; when the child ends, it schedules the awaiting frame, if there is
  -- one, and is not counted as a root task.
  pub await_suspend_lem :
      let r =
        await_suspend resume handle awaiting (some own) (record child { scheduler = none }) w in
      (r.0 ≡ true)
      × (r.2 ≡ own.schedule handle w)
      × ((v : W)
          → final_suspend resume r.1 v ≡ (if awaiting == 0 then v else own.schedule awaiting v))
  unfolding await_suspend final_suspend wired libsimplenet.Task.set_continuation
      libsimplenet.Task.set_scheduler
  await_suspend_lem = (refl, refl, λ v. refl)

-- Whether the result is a value, an exception or missing, `await_resume` and the destruction of the
-- awaiter together destroy the frame that it owns once, and no other.
pub await_resume_lem :
    {W A : Type 0} (t : Task) (child : Promise W A)
    → (await_resume t child).2 ++ destroy (await_resume t child).1 ≡ destroy t
unfolding await_resume destroy
await_resume_lem t child = ground arith
