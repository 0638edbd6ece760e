-- ===== src/Examples/FlagSync/Wakeup.antt =====
-- No notification is lost: the two threads come to their ends.
use mathlib.Core.Path.{subst}
use ubuntu_projects.Base.{ℕ, ◌+◌, ◌<◌, ◌≡◌, refl, ap, sym, Bool, true, false, arith}
use ubuntu_projects.Examples.FlagSync.{
  Setter, Getter, State, Thread, Result, moved, blocked, finished, notify_one, setflag, look,
  getflag, step, wake_up, start,
}

-- The states that steps of the threads, and wake-ups without a notification, lead to.
pub data Reach : State → Type 0 where
  here : Reach start
  steps : {s u : State} (t : Thread) → Reach s → step t s ≡ moved u → Reach u
  wakes : {s : State} → Reach s → Reach (wake_up s)

-- the flag, by where `setflag` is
abbrev flag : Setter → Bool
flag Setter.unset = false
flag _ = true

-- While `getflag` checks, the flag is not set; while it sleeps, the notification is to come.
abbrev attended : Setter → Getter → Bool
attended Setter.unset Getter.returned = false
attended Setter.set Getter.checking = false
attended Setter.notified Getter.checking = false
attended Setter.notified Getter.asleep = false
attended _ _ = true

abbrev Sound : State → Type 0
Sound s = (s.cvflag ≡ flag s.setter) × (attended s.setter s.getter ≡ true)

-- what is left to do
abbrev pub setter_left : Setter → ℕ
setter_left Setter.unset = 10
setter_left Setter.set = 5
setter_left Setter.notified = 0

abbrev pub getter_left : Getter → ℕ
getter_left Getter.starts = 4
getter_left Getter.awake = 3
getter_left Getter.checking = 2
getter_left Getter.asleep = 1
getter_left Getter.returned = 0

abbrev pub left : State → ℕ
left s = setter_left s.setter + getter_left s.getter

-- Both calls have returned, or a thread has a step that leaves less to do.
pub data Goes (s : State) : Type 0 where
  ended : s.setter ≡ Setter.notified → s.getter ≡ Getter.returned → s.cvflag ≡ true → Goes s
  goes : (t : Thread) (u : State) → step t s ≡ moved u → left u < left s → Goes s

abbrev state : Setter → Getter → State
state w g = record { cvflag = flag w; setter = w; getter = g }

abbrev After : Result → Type 0
After (moved u) = Sound u
After blocked = Unit {0}
After finished = Unit {0}

state-Goes : (w : Setter) (g : Getter) → attended w g ≡ true → Goes (state w g)
unfolding setflag getflag look
state-Goes Setter.unset Getter.starts h = goes Thread.sets _ refl (omega arith)
state-Goes Setter.unset Getter.checking h = goes Thread.gets _ refl (omega arith)
state-Goes Setter.unset Getter.asleep h = goes Thread.sets _ refl (omega arith)
state-Goes Setter.unset Getter.awake h = goes Thread.sets _ refl (omega arith)
state-Goes Setter.unset Getter.returned h = cc
state-Goes Setter.set Getter.starts h = goes Thread.sets _ refl (omega arith)
state-Goes Setter.set Getter.checking h = cc
state-Goes Setter.set Getter.asleep h = goes Thread.sets _ refl (omega arith)
state-Goes Setter.set Getter.awake h = goes Thread.sets _ refl (omega arith)
state-Goes Setter.set Getter.returned h = goes Thread.sets _ refl (omega arith)
state-Goes Setter.notified Getter.starts h = goes Thread.gets _ refl (omega arith)
state-Goes Setter.notified Getter.checking h = cc
state-Goes Setter.notified Getter.asleep h = cc
state-Goes Setter.notified Getter.awake h = goes Thread.gets _ refl (omega arith)
state-Goes Setter.notified Getter.returned h = ended refl refl refl

state-After :
    (t : Thread) (w : Setter) (g : Getter) → attended w g ≡ true → After (step t (state w g))
unfolding setflag getflag look
state-After Thread.sets Setter.unset Getter.checking h = tt
state-After Thread.sets Setter.unset Getter.returned h = cc
state-After Thread.sets Setter.unset _ h = (refl, refl)
state-After Thread.sets Setter.set Getter.checking h = cc
state-After Thread.sets Setter.set _ h = (refl, refl)
state-After Thread.sets Setter.notified g h = tt
state-After Thread.gets w Getter.asleep h = tt
state-After Thread.gets w Getter.returned h = tt
state-After Thread.gets Setter.unset _ h = (refl, refl)
state-After Thread.gets Setter.set Getter.checking h = cc
state-After Thread.gets Setter.set _ h = (refl, refl)
state-After Thread.gets Setter.notified Getter.checking h = cc
state-After Thread.gets Setter.notified _ h = (refl, refl)

state-wake_up : (w : Setter) (g : Getter) → attended w g ≡ true → attended w (notify_one g) ≡ true
state-wake_up Setter.unset Getter.asleep h = refl
state-wake_up Setter.set Getter.asleep h = refl
state-wake_up Setter.notified Getter.asleep h = refl
state-wake_up Setter.unset Getter.starts h = h
state-wake_up w _ h = h

Sound-state : (s : State) → Sound s → s ≡ state s.setter s.getter
Sound-state s h = ap (λ b. record s { cvflag = b }) h.0

Reach-Sound : {s : State} → Reach s → Sound s
Reach-Sound here = (refl, refl)
Reach-Sound (steps {s} {u} t r e) =
    let h = Reach-Sound r in
    subst After e
      (subst (λ x. After (step t x)) (sym (Sound-state s h)) (state-After t s.setter s.getter h.1))
Reach-Sound (wakes {s} r) = let h = Reach-Sound r in (h.0, state-wake_up s.setter s.getter h.1)

-- In every state that the threads of `setflag` and `getflag` reach, in any order of their steps
-- and with wake-ups without a notification, both have returned and the flag is set, or one of them
-- has a step that leaves less to do: no notification is lost.
pub Reach-Goes : (s : State) → Reach s → Goes s
Reach-Goes s r =
    let h = Reach-Sound r in subst Goes (sym (Sound-state s h)) (state-Goes s.setter s.getter h.1)
