-- ===== src/Queue/Wf/Keys.antt =====
-- The unique indexes: symmetry of their tests, and what inserts and deletes do to references.
use queue_ti.Base.{
  ℕ, Bool, true, false, Option, none, some, List, [], ◌∷◌, ◌++◌, ◌&&◌, ◌==◌, ◌≡◌, refl, arith,
  Bool-cases, inl, inr, holds,
}
use queue_ti.Base.Text.{Text, text_eq, text_eq_iff}
use queue_ti.Base.Table.{All, All-imp, NoClash, NoClash-append-one, update, delete, any, any-false}
use queue_ti.Queue.Tables.{Message, Delivery, same_id, same_pending_key, same_delivery, has_id}
use queue_ti.Queue.Statements.{add_delivery}

text_eq_comm : (s t : Text) → text_eq s t ≡ text_eq t s
text_eq_comm s t = ground (arith, text_eq_iff s t, text_eq_iff t s)

pub same_id_comm : (a b : Message) → same_id a b ≡ same_id b a
same_id_comm a b = ground arith

holds_comm :
    (k l : Option Text) → holds (λ x. holds (text_eq x) l) k ≡ holds (λ x. holds (text_eq x) k) l
holds_comm none none = refl
holds_comm none (some l) = refl
holds_comm (some k) none = refl
holds_comm (some k) (some l) = text_eq_comm k l

pub same_pending_key_comm : (a b : Message) → same_pending_key a b ≡ same_pending_key b a
same_pending_key_comm a b = ground (arith, text_eq_comm a.topic b.topic, holds_comm a.key b.key)

pub same_delivery_comm : (a b : Delivery) → same_delivery a b ≡ same_delivery b a
same_delivery_comm a b = ground (arith, text_eq_comm a.group b.group)

module _ {ℓ} {A : Type ℓ} (c : A → A → Bool) (comm : (a b : A) → c a b ≡ c b a) where
  -- A row that no row clashes with may be appended.
  pub NoClash-insert :
      (a : A) (xs : List A) → any (c a) xs ≡ false → NoClash c xs → NoClash c (xs ++ a ∷ [])
  NoClash-insert a xs h k =
      NoClash-append-one c xs a
        (All-imp {P = λ x. c a x ≡ false} xs (λ x e. rw (comm x a) e) (any-false (c a) xs h)) k

pub add_delivery-NoClash :
    (d : Delivery) (ds : List Delivery)
    → NoClash same_delivery ds
    → NoClash same_delivery (add_delivery d ds)
unfolding add_delivery
add_delivery-NoClash d ds h = elim (Bool-cases (any (same_delivery d) ds)) [
  | inl e ↦ rw e h
  | inr e ↦ rw e (NoClash-insert same_delivery same_delivery_comm d ds e h)
]

module _ {ℓ} {A : Type ℓ} where
  pub any-append-left : (p : A → Bool) (xs ys : List A) → any p xs ≡ true → any p (xs ++ ys) ≡ true
  unfolding any
  any-append-left p [] ys h = cc
  any-append-left p (x ∷ xs) ys h = ground (arith, any-append-left p xs ys)

  pub any-append-last :
      (p : A → Bool) (xs : List A) (a : A) → p a ≡ true → any p (xs ++ a ∷ []) ≡ true
  unfolding any
  any-append-last p [] a h = ground arith
  any-append-last p (x ∷ xs) a h = ground (arith, any-append-last p xs a h)

-- An update that keeps the ids keeps what is there.
pub any-has_id-update :
    (i : ℕ) (p : Message → Bool) (f : Message → Message) (ms : List Message)
    → ((m : Message) → (f m).id ≡ m.id)
    → any (has_id i) (update p f ms) ≡ any (has_id i) ms
unfolding any update
any-has_id-update i p f [] same = refl
any-has_id-update i p f (m ∷ ms) same = ground (arith, any-has_id-update i p f ms same, same m)

-- A message that no deleted row was is still there.
pub any-has_id-delete :
    (i : ℕ) (p : Message → Bool) (ms : List Message)
    → any (has_id i) ms ≡ true
    → any (λ m. p m && m.id == i) ms ≡ false
    → any (has_id i) (delete p ms) ≡ true
unfolding any delete
any-has_id-delete i p [] h k = cc
any-has_id-delete i p (m ∷ ms) h k = ground (arith, any-has_id-delete i p ms)

-- What `delete p` leaves does not satisfy `p`.
pub All-delete-not {ℓ} :
    {A : Type ℓ} (p : A → Bool) (xs : List A) → All (λ x. p x ≡ false) (delete p xs)
unfolding delete
All-delete-not p [] = tt
All-delete-not p (x ∷ xs) = elim (Bool-cases (p x)) [
  | inl e ↦ rw e (All-delete-not p xs)
  | inr e ↦ rw e (e, All-delete-not p xs)
]
