-- ===== src/Waits/Wakeup.antt =====
-- Threads that put items in and notify, and threads that wait: which of them sleep.
use ubuntu_projects.Waits.{Notify}
use ubuntu_projects.Base.{ℕ, suc, ◌+◌, ◌≤◌, ◌<◌, ◌≡◌, Bool, true, false, ◌&&◌, arith}

-- What the threads see of a container: how a push, the end of a call that waits, and a stop may change
-- it, with whom a push and a stop notify, when a call that waits finds that it has to go on waiting, and
-- whether a push takes the lock under which it looks.
pub record Container (S : Type 0) : Type 1 where
  pub Puts : Notify → S → S → Type 0
  pub Ends : S → S → Type 0
  pub NoItem : S → Type 0
  pub Stops : Notify → S → S → Type 0
  pub put_locks : Bool

-- the container, whether a thread that waits has found no item and still holds the lock, and how many
-- threads sleep, are awake in a call that waits, have put an item in and not yet notified one thread, and
-- have put an item in and not yet notified all
pub record Threads (S : Type 0) : Type 0 where
  pub container : S
  pub checking : Bool
  pub asleep : ℕ
  pub awake : ℕ
  pub pending : ℕ
  pub pending_all : ℕ

module _ {S : Type 0} (c : Container S) where
  pub data Step : Threads S → Threads S → Type 0 where
    put :
        {s t : S} {b : Bool} {n w p l : ℕ}
        → c.Puts Notify.one s t
        → (c.put_locks && b) ≡ false
        → Step
            (record {
              container = s;
              checking = b;
              asleep = n;
              awake = w;
              pending = p;
              pending_all = l;
            })
            (record {
              container = t;
              checking = b;
              asleep = n;
              awake = w;
              pending = suc p;
              pending_all = l;
            })
    put_all :
        {s t : S} {b : Bool} {n w p l : ℕ}
        → c.Puts Notify.all s t
        → (c.put_locks && b) ≡ false
        → Step
            (record {
              container = s;
              checking = b;
              asleep = n;
              awake = w;
              pending = p;
              pending_all = l;
            })
            (record {
              container = t;
              checking = b;
              asleep = n;
              awake = w;
              pending = p;
              pending_all = suc l;
            })
    notify_one :
        {s : S} {b : Bool} {n w p l : ℕ}
        → Step
            (record {
              container = s;
              checking = b;
              asleep = suc n;
              awake = w;
              pending = suc p;
              pending_all = l;
            })
            (record {
              container = s;
              checking = b;
              asleep = n;
              awake = suc w;
              pending = p;
              pending_all = l;
            })
    notify_none :
        {s : S} {b : Bool} {w p l : ℕ}
        → Step
            (record {
              container = s;
              checking = b;
              asleep = 0;
              awake = w;
              pending = suc p;
              pending_all = l;
            })
            (record {
              container = s;
              checking = b;
              asleep = 0;
              awake = w;
              pending = p;
              pending_all = l;
            })
    notify_all :
        {s : S} {b : Bool} {n w p l : ℕ}
        → Step
            (record {
              container = s;
              checking = b;
              asleep = n;
              awake = w;
              pending = p;
              pending_all = suc l;
            })
            (record {
              container = s;
              checking = b;
              asleep = 0;
              awake = w + n;
              pending = p;
              pending_all = l;
            })
    call :
        {s : S} {b : Bool} {n w p l : ℕ}
        → Step
            (record {
              container = s;
              checking = b;
              asleep = n;
              awake = w;
              pending = p;
              pending_all = l;
            })
            (record {
              container = s;
              checking = b;
              asleep = n;
              awake = suc w;
              pending = p;
              pending_all = l;
            })
    finish :
        {s t : S} {n w p l : ℕ}
        → c.Ends s t
        → Step
            (record {
              container = s;
              checking = false;
              asleep = n;
              awake = suc w;
              pending = p;
              pending_all = l;
            })
            (record {
              container = t;
              checking = false;
              asleep = n;
              awake = w;
              pending = p;
              pending_all = l;
            })
    check :
        {s : S} {n w p l : ℕ}
        → c.NoItem s
        → Step
            (record {
              container = s;
              checking = false;
              asleep = n;
              awake = suc w;
              pending = p;
              pending_all = l;
            })
            (record {
              container = s;
              checking = true;
              asleep = n;
              awake = w;
              pending = p;
              pending_all = l;
            })
    sleep :
        {s : S} {n w p l : ℕ}
        → Step
            (record {
              container = s;
              checking = true;
              asleep = n;
              awake = w;
              pending = p;
              pending_all = l;
            })
            (record {
              container = s;
              checking = false;
              asleep = suc n;
              awake = w;
              pending = p;
              pending_all = l;
            })
    spurious :
        {s : S} {b : Bool} {n w p l : ℕ}
        → Step
            (record {
              container = s;
              checking = b;
              asleep = suc n;
              awake = w;
              pending = p;
              pending_all = l;
            })
            (record {
              container = s;
              checking = b;
              asleep = n;
              awake = suc w;
              pending = p;
              pending_all = l;
            })
    stop :
        {s t : S} {n w p l : ℕ}
        → c.Stops Notify.all s t
        → Step
            (record {
              container = s;
              checking = false;
              asleep = n;
              awake = w;
              pending = p;
              pending_all = l;
            })
            (record {
              container = t;
              checking = false;
              asleep = 0;
              awake = w + n;
              pending = p;
              pending_all = l;
            })
    -- a stop that would notify one thread only
    stop_one :
        {s t : S} {n w p l : ℕ}
        → c.Stops Notify.one s t
        → Step
            (record {
              container = s;
              checking = false;
              asleep = suc n;
              awake = w;
              pending = p;
              pending_all = l;
            })
            (record {
              container = t;
              checking = false;
              asleep = n;
              awake = suc w;
              pending = p;
              pending_all = l;
            })

  pub data Reach (t : Threads S) : Threads S → Type 0 where
    here : Reach t t
    later : {u v : Threads S} → Reach t u → Step u v → Reach t v

-- How the operations of a container whose pushes take the lock change the number of its items and the
-- request to stop.
pub record Counts {S : Type 0} (c : Container S) : Type 0 where
  pub size : S → ℕ
  pub stopped : S → Bool
  pub locks : c.put_locks ≡ true
  pub puts :
      (n : Notify) (s t : S)
      → c.Puts n s t
      → (n ≡ Notify.one) × (size t ≡ suc (size s)) × (stopped t ≡ stopped s)
  pub stops : (n : Notify) (s t : S) → c.Stops n s t → n ≡ Notify.all
  pub ends :
      (s t : S) → c.Ends s t → (stopped s ≡ false → size s ≡ suc (size t)) × (stopped t ≡ stopped s)
  pub no_item : (s : S) → c.NoItem s → (size s ≡ 0) × (stopped s ≡ false)

module _ {S : Type 0} (c : Container S) (counts : Counts c) where
  open counts use {size, stopped}

  -- While a thread sleeps, nobody has asked to stop, and for each item there is a thread that is awake or
  -- a notification to come.
  pub record Attended (t : Threads S) : Type 0 where
    pub asleep_attended :
        0 < t.asleep → (stopped t.container ≡ false) × (size t.container ≤ t.pending + t.awake)
    pub checking_attended :
        t.checking ≡ true → (stopped t.container ≡ false) × (size t.container ≡ 0)

  pub Step-Attended : {t u : Threads S} → Step c t u → Attended t → Attended u
  Step-Attended (put {s} {t} change locked) a = record {
    asleep_attended = λ lt.
        ground (arith, a.asleep_attended, a.checking_attended, counts.puts Notify.one s t change);
    checking_attended = λ e. ground (
      arith,
      a.asleep_attended,
      a.checking_attended,
      counts.puts Notify.one s t change,
      counts.locks,
      locked,
    );
  }
  Step-Attended (put_all {s} {t} change locked) a =
      absurd (ground (arith, counts.puts Notify.all s t change))
  Step-Attended notify_one a = record {
    asleep_attended = λ lt. ground (arith, a.asleep_attended, a.checking_attended);
    checking_attended = λ e. ground (arith, a.asleep_attended, a.checking_attended);
  }
  Step-Attended notify_all a = record {
    asleep_attended = λ lt. ground (arith, a.asleep_attended, a.checking_attended);
    checking_attended = λ e. ground (arith, a.asleep_attended, a.checking_attended);
  }
  Step-Attended notify_none a = record {
    asleep_attended = λ lt. ground (arith, a.asleep_attended, a.checking_attended);
    checking_attended = λ e. ground (arith, a.asleep_attended, a.checking_attended);
  }
  Step-Attended call a = record {
    asleep_attended = λ lt. ground (arith, a.asleep_attended, a.checking_attended);
    checking_attended = λ e. ground (arith, a.asleep_attended, a.checking_attended);
  }
  Step-Attended (finish {s} {t} change) a = record {
    asleep_attended =
        λ lt. ground (arith, a.asleep_attended, a.checking_attended, counts.ends s t change);
    checking_attended =
        λ e. ground (arith, a.asleep_attended, a.checking_attended, counts.ends s t change);
  }
  Step-Attended (check {s} nothing) a = record {
    asleep_attended =
        λ lt. ground (arith, a.asleep_attended, a.checking_attended, counts.no_item s nothing);
    checking_attended =
        λ e. ground (arith, a.asleep_attended, a.checking_attended, counts.no_item s nothing);
  }
  Step-Attended sleep a = record {
    asleep_attended = λ lt. ground (arith, a.asleep_attended, a.checking_attended);
    checking_attended = λ e. ground (arith, a.asleep_attended, a.checking_attended);
  }
  Step-Attended spurious a = record {
    asleep_attended = λ lt. ground (arith, a.asleep_attended, a.checking_attended);
    checking_attended = λ e. ground (arith, a.asleep_attended, a.checking_attended);
  }
  Step-Attended (stop {s} {t} change) a = record {
    asleep_attended = λ lt. ground (arith, a.asleep_attended, a.checking_attended);
    checking_attended = λ e. ground (arith, a.asleep_attended, a.checking_attended);
  }
  Step-Attended (stop_one {s} {t} change) a =
      absurd (ground (arith, counts.stops Notify.one s t change))

  pub Reach-Attended : {t u : Threads S} → Reach c t u → Attended t → Attended u
  Reach-Attended here a = a
  Reach-Attended (later r step) a = Step-Attended step (Reach-Attended r a)
