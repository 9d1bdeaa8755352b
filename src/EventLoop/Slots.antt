-- ===== src/EventLoop/Slots.antt =====
-- Putting a slot back into `waiters_`, which drops it when neither side has a waiter.
use libsimplenet.Base.{ℕ, ℤ, ℤ_discrete, ◌+◌, ◌≡◌, true, false, if_elim, List, if◌then◌else◌, arith}
use libsimplenet.Base.Table.{find, assign, erase, erase-assign}
use libsimplenet.Base.Weights.{
  AllEntries, sum_values, weight, sum_values-assign, sum_values-erase, AllEntries-assign,
  AllEntries-erase,
}
use libsimplenet.EventLoop.State.{WaiterSlot, is_vacant}

abbrev pub put_slot : ℤ → WaiterSlot → List (ℤ × WaiterSlot) → List (ℤ × WaiterSlot)
put_slot fd s m =
    if is_vacant s then erase ℤ_discrete fd (assign ℤ_discrete fd s m) else assign ℤ_discrete fd s m

pub sum_values-put_slot :
    (w : WaiterSlot → ℕ) (fd : ℤ) (s : WaiterSlot) (m : List (ℤ × WaiterSlot))
    → (is_vacant s ≡ true → w s ≡ 0)
    → sum_values w (put_slot fd s m) + weight w (find ℤ_discrete fd m) ≡ w s + sum_values w m
sum_values-put_slot w fd s m h =
    if_elim (λ x. sum_values w x + weight w (find ℤ_discrete fd m) ≡ w s + sum_values w m)
      (is_vacant s) (λ v. rw erase-assign (omega (arith, sum_values-erase ℤ_discrete w fd m, h v)))
      λ _. sum_values-assign ℤ_discrete w fd s m

pub AllEntries-put_slot :
    (P : ℤ → WaiterSlot → Type 0) (fd : ℤ) (s : WaiterSlot) (m : List (ℤ × WaiterSlot))
    → (is_vacant s ≡ false → P fd s)
    → AllEntries P m
    → AllEntries P (put_slot fd s m)
AllEntries-put_slot P fd s m h all =
    if_elim (AllEntries P) (is_vacant s)
      (λ _. rw erase-assign (AllEntries-erase ℤ_discrete P fd m all))
      λ v. AllEntries-assign ℤ_discrete P fd s m (h v) all
