-- ===== src/Scheduler/Queue/Invariant.antt =====
-- src/zamboni/scheduler.py: what every operation of the queue keeps true.
use zamboni.Base.{
  ◌≡◌, refl, ◌∙◌, ite, List, [], ◌∷◌, Option, none, some, Bool, true, false, arith, inl, inr,
  TableKey, key_discrete, Distinct, is_some, Option-cases, Bool-cases,
}
use zamboni.Base.Dict.{
  Dict, keys, get, put, remove, get-nil, get-put, get-remove, Distinct-put, contains-keys,
}
use zamboni.Fleet.{Warehouse, ScheduleOps}
use zamboni.Scheduler.Reasons.{Operations}
use zamboni.Scheduler.Candidate.{Candidate, key, merged}
use zamboni.Scheduler.WorkItem
use zamboni.Scheduler.WorkItem.{WorkItem, resolve}
use zamboni.Scheduler.Queue.Cases.{offer-new, offer-queued, offer-marked, offer-covered}
use zamboni.Scheduler.Queue.{
  Queue, empty, merge_into, wants_another_run, offer_admitted, offer, take_from, take, finish,
  ready_after, reoffer,
}

-- Every entry stands under its own table's key, a table is never both queued and in flight, only a table in flight is dirty, no table is queued
-- twice, and a waiting `get` has been told of whatever is queued.
pub record IsSound (q : Queue) : Type 0 where
  pub keyed : (k : TableKey) (c : Candidate) → get key_discrete q.queued k ≡ some c → key c ≡ k
  pub dirty_keyed : (k : TableKey) (c : Candidate) → get key_discrete q.dirty k ≡ some c → key c ≡ k
  pub exclusive :
      (k : TableKey)
      → is_some (get key_discrete q.in_flight k) ≡ true
      → get key_discrete q.queued k ≡ none
  pub dirty_in_flight :
      (k : TableKey)
      → is_some (get key_discrete q.dirty k) ≡ true
      → is_some (get key_discrete q.in_flight k) ≡ true
  pub distinct : Distinct key_discrete (keys q.queued)
  pub told : q.ready ≡ false → q.queued ≡ []

pub empty-IsSound : IsSound empty
unfolding get
empty-IsSound = record {
  keyed = λ k c h. cc;
  dirty_keyed = λ k c h. cc;
  exclusive = λ k h. refl;
  dirty_in_flight = λ k h. h;
  distinct = tt;
  told = λ h. refl;
}

put-ne-nil :
    (d : Dict TableKey Candidate) (k : TableKey) (c : Candidate) → put key_discrete d k c ≡ [] → ⊥
unfolding put
put-ne-nil [] k c h = cc
put-ne-nil ((j, w) ∷ d) k c h = ground arith

merge_into-has :
    (d : Dict TableKey Candidate) (c : Candidate) (k : TableKey)
    → is_some (get key_discrete (merge_into d c) k)
      ≡ ite (key_discrete (key c) k) true (is_some (get key_discrete d k))
merge_into-has d c k = elim (Option-cases (get key_discrete d (key c))) [
  | inl e ↦ rw (e, merge_into) (rw get-put (ground arith))
  | inr (x, e) ↦ rw (e, merge_into) (rw get-put (ground arith))
]

pub merged-key : (a b : Candidate) → key (merged a b) ≡ key a
unfolding merged
merged-key a b = refl

merge_into-keyed :
    (d : Dict TableKey Candidate) (c : Candidate)
    → ((k : TableKey) (e : Candidate) → get key_discrete d k ≡ some e → key e ≡ k)
    → (k : TableKey) (e : Candidate) → get key_discrete (merge_into d c) k ≡ some e
    → key e ≡ k
merge_into-keyed d c v k e = elim (Option-cases (get key_discrete d (key c))) [
  | inl new ↦ rw (new, merge_into) (rw get-put (ground (arith, v k e)))
  | inr (x, old) ↦
      rw (old, merge_into) (rw get-put (ground (arith, v k e, v (key c) x, merged-key x c)))
]

module _ (q : Queue) (c : Candidate) (v : IsSound q) where
  -- An offer of a table in flight touches only what is dirty.
  marked-IsSound :
      {running : Operations}
      → get key_discrete q.in_flight (key c) ≡ some running
      → IsSound (record q { dirty = merge_into q.dirty c })
  marked-IsSound e = record {
    keyed = v.keyed;
    dirty_keyed = merge_into-keyed q.dirty c v.dirty_keyed;
    exclusive = v.exclusive;
    dirty_in_flight = λ k h. ground (arith, merge_into-has q.dirty c k, v.dirty_in_flight k);
    distinct = v.distinct;
    told = v.told;
  }

  coalesced-IsSound :
      (earlier d : Candidate)
      → key d ≡ key c
      → get key_discrete q.queued (key c) ≡ some earlier
      → IsSound (record q { queued = put key_discrete q.queued (key c) d })
  coalesced-IsSound earlier d same e = record {
    keyed = λ k x h. ground (arith, get-put key_discrete q.queued (key c) k d, v.keyed k x);
    dirty_keyed = v.dirty_keyed;
    exclusive = λ k h. ground (arith, get-put key_discrete q.queued (key c) k d, v.exclusive k h);
    dirty_in_flight = v.dirty_in_flight;
    distinct = Distinct-put key_discrete q.queued (key c) d v.distinct;
    told = λ h. cc (v.told h, get-nil {V = Candidate} key_discrete (key c));
  }

  queued-IsSound :
      get key_discrete q.in_flight (key c) ≡ none
      → IsSound (record q { queued = put key_discrete q.queued (key c) c; ready = true })
  queued-IsSound e = record {
    keyed = λ k x h. ground (arith, get-put key_discrete q.queued (key c) k c, v.keyed k x);
    dirty_keyed = v.dirty_keyed;
    exclusive = λ k h. ground (arith, get-put key_discrete q.queued (key c) k c, v.exclusive k h);
    dirty_in_flight = v.dirty_in_flight;
    distinct = Distinct-put key_discrete q.queued (key c) c v.distinct;
    told = λ h. cc;
  }

  pub offer_admitted-IsSound : IsSound (offer_admitted q c).0
  offer_admitted-IsSound = elim (Option-cases (get key_discrete q.in_flight (key c))) [
    | inl free ↦ elim (Option-cases (get key_discrete q.queued (key c))) [
      | inl new ↦ rw (offer-new q c free new) ((queued-IsSound free))
      | inr (earlier, old) ↦
          rw (offer-queued q c earlier free old)
            ((coalesced-IsSound earlier _ (merged-key earlier c ∙ v.keyed (key c) earlier old) old))
    ]
    | inr (running, busy) ↦ elim (Bool-cases (wants_another_run running c)) [
      | inl more ↦ rw (offer-marked q c running busy more) ((marked-IsSound busy))
      | inr done ↦ rw (offer-covered q c running busy done) (v)
    ]
  ]

pub offer-IsSound :
    (admit : Candidate → Bool) (q : Queue) (c : Candidate) → IsSound q → IsSound (offer admit q c).0
unfolding offer
offer-IsSound admit q c v = elim (Bool-cases (admit c)) [
  | inl let_in ↦ rw (let_in, offer) (offer_admitted-IsSound q c v)
  | inr refused ↦ rw (refused, offer) v
]

reoffer-IsSound :
    (admit : Candidate → Bool) (q : Queue) (o : Option Candidate)
    → IsSound q
    → IsSound (reoffer admit q o)
reoffer-IsSound admit q none v = v
reoffer-IsSound admit q (some c) v = offer-IsSound admit q c v

ended-IsSound :
    (q : Queue) (k : TableKey)
    → IsSound q
    → IsSound (record q {
      in_flight = remove key_discrete q.in_flight k;
      dirty = remove key_discrete q.dirty k;
    })
ended-IsSound q k v = record {
  keyed = v.keyed;
  dirty_keyed = λ j x h. ground (arith, get-remove key_discrete q.dirty k j, v.dirty_keyed j x);
  exclusive = λ j h. ground (arith, get-remove key_discrete q.in_flight k j, v.exclusive j);
  dirty_in_flight = λ j h. ground (
    arith,
    get-remove key_discrete q.in_flight k j,
    get-remove key_discrete q.dirty k j,
    v.dirty_in_flight j,
  );
  distinct = v.distinct;
  told = v.told;
}

pub finish-IsSound :
    (admit : Candidate → Bool) (q : Queue) (item : WorkItem)
    → IsSound q
    → IsSound (finish admit q item)
unfolding finish
finish-IsSound admit q item v = reoffer-IsSound admit _ _ (ended-IsSound q (WorkItem.key item) v)

module _ {S : Type 0} (ops : ScheduleOps S) (fleet : List (Warehouse S)) where
  pub dropped-IsSound :
      (q : Queue) (k : TableKey) (c : Candidate) (rest : Dict TableKey Candidate)
      → IsSound (record q { queued = (k, c) ∷ rest })
      → IsSound (record q { queued = rest })
  unfolding get
  dropped-IsSound q k c rest v = record {
    keyed = λ j x h. ground (arith, v.keyed j x, v.distinct.0, contains-keys key_discrete rest k);
    dirty_keyed = v.dirty_keyed;
    exclusive = λ j h. ground (arith, v.exclusive j h);
    dirty_in_flight = v.dirty_in_flight;
    distinct = v.distinct.1;
    told = λ h. cc (v.told h);
  }

  told_after :
      (ready : Bool) (rest : Dict TableKey Candidate)
      → ready ≡ true
      → ready_after rest ready ≡ false
      → rest ≡ []
  told_after ready [] t h = refl
  told_after ready (e ∷ rest) t h = cc

  started-IsSound :
      (q : Queue) (k : TableKey) (c : Candidate) (rest : Dict TableKey Candidate)
      (running : Operations)
      → IsSound (record q { queued = (k, c) ∷ rest })
      → IsSound (record q {
        queued = rest;
        in_flight = put key_discrete q.in_flight k running;
        ready = ready_after rest q.ready;
      })
  unfolding get
  started-IsSound q k c rest running v = record {
    keyed = λ j x h. ground (arith, v.keyed j x, v.distinct.0, contains-keys key_discrete rest k);
    dirty_keyed = v.dirty_keyed;
    exclusive = λ j h. ground (
      arith,
      get-put key_discrete q.in_flight k j running,
      v.exclusive j,
      v.distinct.0,
      contains-keys key_discrete rest k,
    );
    dirty_in_flight =
        λ j h. ground (arith, get-put key_discrete q.in_flight k j running, v.dirty_in_flight j);
    distinct = v.distinct.1;
    told = λ h. elim (Bool-cases q.ready) [
      | inl t ↦ told_after q.ready rest t h
      | inr f ↦ cc (v.told f)
    ];
  }

  take_from-IsSound :
      (q : Queue) (l : Dict TableKey Candidate)
      → IsSound (record q { queued = l })
      → IsSound (take_from ops fleet q l).0
  unfolding take_from
  take_from-IsSound q [] v = record {
    keyed = v.keyed;
    dirty_keyed = v.dirty_keyed;
    exclusive = v.exclusive;
    dirty_in_flight = v.dirty_in_flight;
    distinct = tt;
    told = λ h. refl;
  }
  take_from-IsSound q ((k, c) ∷ rest) v = elim (Option-cases (resolve ops c fleet)) [
    | inl gone ↦ rw (gone, take_from) (take_from-IsSound q rest (dropped-IsSound q k c rest v))
    | inr (item, e) ↦ rw (e, take_from) (started-IsSound q k c rest _ v)
  ]

  pub take-IsSound : (q : Queue) → IsSound q → IsSound (take ops fleet q).0
  unfolding take
  take-IsSound q v = take_from-IsSound q q.queued v
