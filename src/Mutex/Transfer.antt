-- ===== src/Mutex/Transfer.antt =====
-- Unlocking and dropping an operation hand the lock to one waiter at most.
use vio.Prelude.{
  ℕ, ◌-◌, ◌≡◌, Bool, true, false, not, ◌&&◌, ◌||◌, Option, none, List, [], ◌∷◌, Bool-cases, if_rule,
  inl, inr, ◌==◌, if◌then◌else◌, arith, subst⁻¹, erase_first, Option-cases,
}
use vio.Waiter.{can_resume, prepared}
use vio.Mutex.{
  World, clear_handoff, hand_over, transfer_loop, transfer_or_unlock, unlock, detach, detached,
  with_waiter,
}
use vio.Mutex.Exclusion.{Session, IsExclusive, is_ok}

-- A live mutex whose lock nobody has, and nobody is to be told that he has: it is free to be handed
-- over.
record IsFree (w : World) : Type 0 where
  alive : w.mutex.alive ≡ true
  unreserved : (j : ℕ) → (w.store.waiter j).reserved ≡ false
  waits :
      (j : ℕ)
      → (w.store.waiter j).continuation ≡ true
      → ((w.store.waiter j).held && (w.store.waiter j).owner && can_resume (w.store.waiter j))
        ≡ true
  untold : (j : ℕ) → ((w.store.waiter j).held && is_ok (w.store.waiter j).result) ≡ false

-- Nobody was told, or is to be told, that he holds the lock.
abbrev unowned : World → Session
unowned w = record { world = w; holders = 0; granted = none }

-- Whether the operation that is dropped has the lock reserved.
abbrev gives_up : World → ℕ → Bool
gives_up w i =
    let v = w.store.waiter i in v.held && not v.observing && v.owner && not v.enqueued && v.reserved

abbrev given_up : World → ℕ → World
given_up w i =
    record (with_waiter w i (record (detached (w.store.waiter i)) { reserved = false })) {
      mutex = clear_handoff w.mutex i;
    }

abbrev plain_detach : World → ℕ → World
plain_detach w i =
    let v = w.store.waiter i in
    if not v.held || v.observing
    then w
    else if v.owner && v.enqueued
    then record (with_waiter w i (record (detached v) { enqueued = false })) {
      mutex = record w.mutex { waiters = erase_first i w.mutex.waiters };
    }
    else with_waiter w i (detached v)

module _ (accepts : ℕ → Bool) where
  skip-IsFree :
      (w : World) (i : ℕ)
      → can_resume (w.store.waiter i) ≡ false
      → IsFree w
      → IsFree (with_waiter w i (prepared (w.store.waiter i)))
  skip-IsFree w i e f = record {
    alive = f.alive;
    unreserved = λ j. ground (arith, f.unreserved j);
    waits = λ j h. ground (arith, f.waits i, f.waits j);
    untold = λ j. ground (arith, f.untold j);
  }

  hand_over-IsExclusive :
      (w : World) (queue : List ℕ) (i : ℕ)
      → can_resume (w.store.waiter i) ≡ true
      → IsFree w
      → IsExclusive (unowned (hand_over accepts w queue i))
  hand_over-IsExclusive w queue i e f = record {
    alive = ground (arith, f.alive);
    one = ground arith;
    matched = λ j. ground (arith, f.unreserved j);
    kept = λ j h. ground (arith, f.waits i, f.unreserved j);
    waits = λ j h. ground (arith, f.waits j);
    told = λ j h. ground (arith, f.untold j);
  }

  transfer_loop-IsExclusive :
      (queue : List ℕ) (w : World)
      → IsFree w
      → IsExclusive (unowned (transfer_loop accepts queue w))
  unfolding transfer_loop
  transfer_loop-IsExclusive [] w f = record {
    alive = f.alive;
    one = ground arith;
    matched = λ j. f.unreserved j;
    kept = λ j h. ground (arith, f.unreserved j);
    waits = f.waits;
    told = λ j h. ground (arith, f.untold j);
  }
  transfer_loop-IsExclusive (i ∷ queue) w f =
      if_rule (λ after. IsExclusive (unowned after)) (can_resume (w.store.waiter i))
        (λ can. hand_over-IsExclusive w queue i can f)
        (λ not_.
          transfer_loop-IsExclusive queue (with_waiter w i (prepared (w.store.waiter i)))
            (skip-IsFree w i not_ f))

  transfer_or_unlock-IsExclusive :
      (w : World) → IsFree w → IsExclusive (unowned (transfer_or_unlock accepts w))
  unfolding transfer_or_unlock
  transfer_or_unlock-IsExclusive w f =
      if_rule (λ after. IsExclusive (unowned after)) (not w.mutex.alive)
        (λ dead. absurd (ground (arith, f.alive)))
        (λ alive. transfer_loop-IsExclusive w.mutex.waiters w f)

  transferred :
      (w : World) (holders : ℕ) (granted : Option ℕ)
      → (holders ≡ 0) × (granted ≡ none)
      → IsFree w
      → IsExclusive
          (record { world = transfer_or_unlock accepts w; holders = holders; granted = granted })
  transferred w holders granted (h, g) f =
      subst⁻¹
        (λ n.
          IsExclusive
            (record { world = transfer_or_unlock accepts w; holders = n; granted = granted }))
        h
        (subst⁻¹
          (λ o.
            IsExclusive (record { world = transfer_or_unlock accepts w; holders = 0; granted = o }))
          g (transfer_or_unlock-IsExclusive w f))

  unlock_locked :
      (w : World)
      → w.mutex.alive ≡ true
      → w.mutex.locked ≡ true
      → unlock accepts w ≡ transfer_or_unlock accepts w
  unfolding unlock
  unlock_locked w alive locked = ground arith

  detach-given_up :
      (w : World) (i : ℕ)
      → w.mutex.alive ≡ true
      → gives_up w i ≡ true
      → detach accepts w i ≡ transfer_or_unlock accepts (given_up w i)
  unfolding detach
  detach-given_up w i alive e = ground arith

  detach-plain_detach :
      (w : World) (i : ℕ)
      → w.mutex.alive ≡ true
      → gives_up w i ≡ false
      → detach accepts w i ≡ plain_detach w i
  unfolding detach
  detach-plain_detach w i alive e = ground arith

  module _ (s : Session) (v : IsExclusive s) where
    holder_alone : (s.holders == 0) ≡ false → (s.holders - 1 ≡ 0) × (s.granted ≡ none)
    holder_alone e = ground (arith, v.one, Option-cases s.granted)

    nobody-unreserved :
        (s.holders == 0) ≡ false → (j : ℕ) → (s.world.store.waiter j).reserved ≡ false
    nobody-unreserved e j = elim (Option-cases s.world.mutex.handoff) [
      | inl n ↦ ground (arith, v.matched j)
      | inr (k, h) ↦ ground (arith, v.one)
    ]

    nobody-untold :
        (s.holders == 0) ≡ false
        → (j : ℕ) → ((s.world.store.waiter j).held && is_ok (s.world.store.waiter j).result) ≡ false
    nobody-untold e j = ground (arith, v.one, v.told j, nobody-unreserved e j, holder_alone e)

    holder-IsFree : (s.holders == 0) ≡ false → IsFree s.world
    holder-IsFree e = record {
      alive = v.alive;
      unreserved = nobody-unreserved e;
      waits = v.waits;
      untold = nobody-untold e;
    }

    holder_locked : (s.holders == 0) ≡ false → s.world.mutex.locked ≡ true
    holder_locked e = ground (arith, v.one)

    pub unlock-IsExclusive :
        (s.holders == 0) ≡ false
        → IsExclusive (record s { world = unlock accepts s.world; holders = s.holders - 1 })
    unlock-IsExclusive e =
        subst⁻¹ (λ w. IsExclusive (record s { world = w; holders = s.holders - 1 }))
          (unlock_locked s.world v.alive (holder_locked e))
          (transferred s.world (s.holders - 1) s.granted (holder_alone e) (holder-IsFree e))

    plain-IsExclusive :
        (i : ℕ)
        → gives_up s.world i ≡ false
        → IsExclusive (record s { world = plain_detach s.world i })
    plain-IsExclusive i e = record {
      alive = ground (arith, v.alive);
      one = ground (arith, v.one);
      matched = λ j. ground (arith, v.matched j);
      kept = λ j h. ground (arith, v.kept j, v.kept i);
      waits = λ j h. ground (arith, v.waits j);
      told = λ j h. ground (arith, v.told j);
    }

    given_up_alone : (i : ℕ) → gives_up s.world i ≡ true → (s.holders ≡ 0) × (s.granted ≡ none)
    given_up_alone i e = elim (Option-cases s.world.mutex.handoff) [
      | inl n ↦ ground (arith, v.matched i)
      | inr (k, h) ↦ ground (arith, v.one, Option-cases s.granted)
    ]

    given_up-IsFree : (i : ℕ) → gives_up s.world i ≡ true → IsFree (given_up s.world i)
    given_up-IsFree i e = record {
      untold = λ j. ground (arith, v.told j, v.matched i, v.matched j, given_up_alone i e);
      alive = ground (arith, v.alive);
      unreserved = λ j. ground (arith, v.matched i, v.matched j);
      waits = λ j h. ground (arith, v.waits j);
    }

    pub detach-IsExclusive : (i : ℕ) → IsExclusive (record s { world = detach accepts s.world i })
    detach-IsExclusive i = elim (Bool-cases (gives_up s.world i)) [
      | inl e ↦
          subst⁻¹ (λ w. IsExclusive (record s { world = w })) (detach-given_up s.world i v.alive e)
            (transferred (given_up s.world i) s.holders s.granted (given_up_alone i e)
              (given_up-IsFree i e))
      | inr e ↦
          subst⁻¹ (λ w. IsExclusive (record s { world = w }))
            (detach-plain_detach s.world i v.alive e) (plain-IsExclusive i e)
    ]
