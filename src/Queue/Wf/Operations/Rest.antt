-- ===== src/Queue/Wf/Operations/Rest.antt =====
-- What the methods share: rows that were read, and the tables that well-formedness does not read.
use queue_ti.Base.{Option, none, some, List, Bool, Option-cases, inl, inr}
use queue_ti.Base.Table.{All-first, first}
use queue_ti.Queue.Error.{Error}
use queue_ti.Queue.Tables.{Db, Message, Group, TopicConfig, Bucket, TopicSchema}
use queue_ti.Queue.Op.Keeps.{Keeps, Keeps-pure, Keeps-raise}
use queue_ti.Queue.Lifecycle.{or_raise}
use queue_ti.Queue.Wf.{Wf, IsRow}

abbrev pub Found {ℓ} : {A : Type ℓ} → (A → Type 0) → Option A → Type 0
Found P none = Unit
Found P (some a) = P a

pub Found-first : (p : Message → Bool) (db : Db) → Wf db → Found IsRow (first p db.messages)
Found-first p db w = elim (Option-cases (first p db.messages)) [
  | inl e ↦ rw e tt
  | inr (m, e) ↦ rw e (All-first IsRow p db.messages w.rows e).0
]

pub Keeps-or_raise {ℓ} :
    {A : Type ℓ} {I : Db → Type 0} {Q : A → Type 0} (e : Error) (o : Option A)
    → Found Q o
    → Keeps I Q (or_raise e o)
Keeps-or_raise e none q = Keeps-raise e
Keeps-or_raise e (some a) q = Keeps-pure a q

pub Wf-rest :
    (db : Db) (gs : List Group) (cs : List TopicConfig) (bs : List Bucket) (ss : List TopicSchema)
    → Wf db
    → Wf (record db { groups = gs; configs = cs; buckets = bs; schemas = ss })
Wf-rest db gs cs bs ss w = record {
  ids = w.ids;
  keys = w.keys;
  rows = w.rows;
  archived = w.archived;
  pairs = w.pairs;
  references = w.references;
}
