-- ===== src/Queue/Op/Inert.antt =====
-- Operations that leave the database alone: reads, and everything on caches, metrics and broadcasts.
use queue_ti.Base.{◌≡◌, refl, Bool, true, false, if◌then◌else◌, inl, inr, ℕ, ◌∙◌, Bool-cases}
use queue_ti.Base.Text.{Text}
use queue_ti.Queue.Error.{Error, Result, ok, err}
use queue_ti.Queue.Tables.{Db}
use queue_ti.Queue.Service.{Service, Call}
use queue_ti.Queue.Op.{
  World, Op, Metric, Channel, pure, raise, ◌>>=◌, ◌>>◌, continue, attempt_cases, next_fault_lem,
  tx_query, pool_query, observe, publish, cache_get, cache_set, cache_delete,
}
use queue_ti.Queue.Op.Keeps.{Keeps, Any, Returns}

-- The databases of a world.
abbrev pub SameDbs : World → World → Type 0
SameDbs s t = (t.db ≡ s.db) × (t.committed ≡ s.committed)

pub record Inert {ℓ} {A : Type ℓ} (m : Op A) : Type ℓ where
  pub same : (s : World) → SameDbs s (m s).1

module _ {ℓ} {A : Type ℓ} where
  pub Inert-pure : (a : A) → Inert (pure a)
  unfolding pure
  Inert-pure a = record { same = λ s. (refl, refl) }

  pub Inert-raise : (e : Error) → Inert (raise {A = A} e)
  unfolding raise
  Inert-raise e = record { same = λ s. (refl, refl) }

  pub Inert-if :
      (b : Bool) {m n : Op A}
      → (b ≡ true → Inert m)
      → (b ≡ false → Inert n)
      → Inert (if b then m else n)
  Inert-if true km kn = km refl
  Inert-if false km kn = kn refl

  pub Inert-tx_query : (f : Db → A) → Inert (tx_query f)
  unfolding tx_query
  Inert-tx_query f = record {
    same = λ s.
        let (fs, c) = attempt_cases (λ t. (ok (f t.db), t)) s in
        elim c [ inl e ↦ rw e (refl, refl) | inr e ↦ rw e (refl, refl) ];
  }

  pub Inert-pool_query : (f : Db → A) → Inert (pool_query f)
  unfolding pool_query
  Inert-pool_query f = record {
    same = λ s.
        let (fs, c) = attempt_cases (λ t. (ok (f t.committed), t)) s in
        elim c [ inl e ↦ rw e (refl, refl) | inr e ↦ rw e (refl, refl) ];
  }

  Any-result : (r : Result A) → Returns Any r
  Any-result (ok a) = tt
  Any-result (err e) = tt

  -- What leaves the database alone keeps every invariant.
  pub Inert-Keeps : {I : Db → Type 0} {m : Op A} → Inert m → Keeps I Any m
  Inert-Keeps {I} {m} i = record {
    run = λ s h. let (d, c) = i.same s in ((rw d h.0, rw c h.1), Any-result (m s).0);
  }

module _ {ℓ κ} {A : Type ℓ} {B : Type κ} where
  Inert-continue :
      (f : A → Op B) (r : Result A) (s : World)
      → ((a : A) → Inert (f a))
      → SameDbs s (continue r f s).1
  Inert-continue f (ok a) s k = (k a).same s
  Inert-continue f (err e) s k = (refl, refl)

  pub Inert-bind : {m : Op A} {f : A → Op B} → Inert m → ((a : A) → Inert (f a)) → Inert (m >>= f)
  unfolding ◌>>=◌
  Inert-bind {m} {f} km kf = record {
    same = λ s.
        let (d, c) = km.same s in
        let (d', c') = Inert-continue f (m s).0 (m s).1 kf in (d' ∙ d, c' ∙ c);
  }

  pub Inert-then : {m : Op A} {n : Op B} → Inert m → Inert n → Inert (m >> n)
  Inert-then km kn = Inert-bind km (λ a. kn)

pub Inert-observe : (m : Metric) → Inert (observe m)
unfolding observe
Inert-observe m = record { same = λ s. (refl, refl) }

pub Inert-publish : (c : Channel) (t : Text) → Inert (publish c t)
unfolding publish
Inert-publish c t = record {
  same = λ s.
      let (f, fs, e) = next_fault_lem s in
      rw (e, publish)
        (elim (Bool-cases f) [ inl b ↦ rw b (refl, refl) | inr b ↦ rw b (refl, refl) ]);
}

pub Inert-cache_get : (sv : Service) (c : Call) (k : Text) → Inert (cache_get sv c k)
unfolding cache_get
Inert-cache_get sv c k = record {
  same = λ s. let (f, fs, e) = next_fault_lem s in rw (e, cache_get) (refl, refl);
}

-- A write of redis goes through, fails or is not made.
written :
    (on f : Bool) (s t : World) → SameDbs s t → SameDbs s (if on then (if f then s else t) else s)
written true true s t h = (refl, refl)
written true false s t h = h
written false f s t h = (refl, refl)

pub Inert-cache_set :
    (sv : Service) (c : Call) (k raw : Text) (until : ℕ) → Inert (cache_set sv c k raw until)
unfolding cache_set
Inert-cache_set sv c k raw until = record {
  same = λ s.
      let (f, fs, e) = next_fault_lem s in rw (e, cache_set) (written sv.redis f _ _ (refl, refl));
}

pub Inert-cache_delete : (sv : Service) (k : Text) → Inert (cache_delete sv k)
unfolding cache_delete
Inert-cache_delete sv k = record {
  same = λ s.
      let (f, fs, e) = next_fault_lem s in
      rw (e, cache_delete) (written sv.redis f _ _ (refl, refl));
}
