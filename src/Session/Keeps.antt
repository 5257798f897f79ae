-- ===== src/Session/Keeps.antt =====
-- Invariants of the session under its procedures, step by step.
use unworkable.Common.{
  ℕ, ◌≡◌, refl, ◌∙◌, Bool, true, false, some, Outcome, ok, die, fault, if◌then◌else◌, arith,
  Option-cases, inl, inr,
}
use mathlib.Core.Path.{subst}
use unworkable.Index.{RbTree}
use unworkable.Session.{PieceDl, Peer, Session, Proc}
use unworkable.Session.Store.{◌>>=◌, ◌>>◌, >>=-last, pure, lift, get, get_peer, get_dl}

-- From a session with the invariant `I`, and with `H` of it, a procedure ends in one with the invariant.
pub record From {rb : RbTree} (I H : Session rb → Type 0) {A : Type 0} (m : Proc rb A)
    : Type 0 where
  pub ends : (s : Session rb) → I s → H s → (a : A) (s' : Session rb) → m s ≡ ok (a, s') → I s'

-- A procedure that leaves the session alone.
pub record Reads {rb : RbTree} {A : Type 0} (m : Proc rb A) : Type 0 where
  pub same : (s : Session rb) (a : A) (t : Session rb) → m s ≡ ok (a, t) → s ≡ t

module _ {rb : RbTree} where
  abbrev pub Any : Session rb → Type 0
  Any s = Unit

  abbrev pub Keeps : (Session rb → Type 0) → {A : Type 0} → Proc rb A → Type 0
  Keeps I m = From I Any m

  -- The peer at an address.
  abbrev pub Held : ℕ → Peer → Session rb → Type 0
  Held p v s = s.peer p ≡ some v

-- Where a procedure ends it has one session.
pub ended :
    {rb : RbTree} {A : Type 0} {a b : A} {s t : Session rb}
    → ◌≡◌ {A = Outcome (A × Session rb)} (ok (a, s)) (ok (b, t))
    → s ≡ t
ended e = ground arith

module _ {rb : RbTree} where
  lift_same :
      {A : Type 0} (m : Outcome A) (s : Session rb) (a : A) (t : Session rb)
      → lift m s ≡ ok (a, t)
      → s ≡ t
  lift_same (ok a) s b t run = ended run
  lift_same die s b t run = absurd (cc)
  lift_same fault s b t run = absurd (cc)

module _ {rb : RbTree} {I H : Session rb → Type 0} {A : Type 0} where
  pub From-Reads : {m : Proc rb A} → Reads m → From I H m
  From-Reads r = record { ends = λ s i h a s' run. subst I (r.same s a s' run) i }

  pub From-if :
      (c : Bool) {m n : Proc rb A} → From I H m → From I H n → From I H (if c then m else n)
  From-if true k l = k
  From-if false k l = l

  pub From-Keeps : {m : Proc rb A} → Keeps I m → From I H m
  From-Keeps k = record { ends = λ s i h a s' run. k.ends s i tt a s' run }

module _ {rb : RbTree} {I H : Session rb → Type 0} {A B : Type 0} where
  -- A step that keeps the invariant, and what follows.
  pub From->>= :
      {m : Proc rb A} {f : A → Proc rb B}
      → From I H m
      → ((a : A) → Keeps I (f a))
      → From I H (m >>= f)
  From->>= {m} {f} k l = record {
    ends = λ s i h b s' run.
        >>=-last m f s (λ a t e r. (l a).ends t (k.ends s i h a t e) tt b s' r) run;
  }

  -- A step that leaves the session alone.
  pub From-read :
      {m : Proc rb A} {f : A → Proc rb B}
      → Reads m
      → ((a : A) → From I H (f a))
      → From I H (m >>= f)
  From-read {m} {f} q l = record {
    ends = λ s i h b s' run.
        >>=-last m f s
          (λ a t e r. (l a).ends t (subst I (q.same s a t e) i) (subst H (q.same s a t e) h) b s' r)
          run;
  }

module _ {rb : RbTree} {I H : Session rb → Type 0} {B : Type 0} where
  pub From-get :
      {f : Session rb → Proc rb B} → ((s : Session rb) → From I H (f s)) → From I H (get >>= f)
  From-get {f} l = From-read (record { same = λ s a t run. ended run }) l

  pub From-lift :
      {A : Type 0} (m : Outcome A) {f : A → Proc rb B}
      → ((a : A) → From I H (f a))
      → From I H (lift m >>= f)
  From-lift m {f = f} l = From-read (record { same = lift_same m }) l

  -- A computation on values, with what is known of its result.
  pub From-lift_ok :
      {A : Type 0} (m : Outcome A) {f : A → Proc rb B}
      → ((a : A) → m ≡ ok a → From I H (f a))
      → From I H (lift m >>= f)
  From-lift_ok (ok a) l = record { ends = λ s i h b s' run. (l a refl).ends s i h b s' run }
  From-lift_ok die l = record { ends = λ s i h b s' run. absurd (cc) }
  From-lift_ok fault l = record { ends = λ s i h b s' run. absurd (cc) }

  pub From->> :
      {m : Proc rb (Unit {0})} {k : Proc rb B} → From I H m → Keeps I k → From I H (m >> k)
  From->> {m} {k} l r = record {
    ends = λ s i h b s' run.
        >>=-last m (λ u. k) s (λ a t e run'. r.ends t (l.ends s i h a t e) tt b s' run') run;
  }

  pub From-get_peer :
      {p : ℕ} {f : Peer → Proc rb B}
      → ((v : Peer) → From I (Held p v) (f v))
      → From I H (get_peer p >>= f)
  From-get_peer {p} {f} l = record {
    ends = λ s i h b s' run. elim (Option-cases (s.peer p)) [
      | inl gone ↦ absurd (ground arith)
      | inr (v, e) ↦ (l v).ends s i e b s' (ground arith)
    ];
  }

module _ {rb : RbTree} {I H : Session rb → Type 0} {B : Type 0} where
  pub From-get_dl :
      {d : ℕ} {f : PieceDl → Proc rb B}
      → ((v : PieceDl) → From I (λ s. (s.dl d ≡ some v) × H s) (f v))
      → From I H (get_dl d >>= f)
  From-get_dl {d} {f} l = record {
    ends = λ s i h b s' run. elim (Option-cases (s.dl d)) [
      | inl gone ↦ absurd (ground arith)
      | inr (v, e) ↦ (l v).ends s i (e, h) b s' (ground arith)
    ];
  }

module _ {rb : RbTree} where
  pub get-Reads : Reads {rb = rb} get
  get-Reads = record { same = λ s a t run. ended run }

  pub pure-Reads : {A : Type 0} {a : A} → Reads {rb = rb} (pure a)
  pure-Reads = record { same = λ s b t run. ended run }

  pub lift-Reads : {A : Type 0} (m : Outcome A) → Reads {rb = rb} (lift m)
  lift-Reads m = record { same = lift_same m }

  get_peer_same :
      (p : ℕ) (s : Session rb) (v : Peer) (t : Session rb) → get_peer p s ≡ ok (v, t) → s ≡ t
  get_peer_same p s v t run = ground arith

  pub get_peer-Reads : {p : ℕ} → Reads {rb = rb} (get_peer p)
  get_peer-Reads {p} = record { same = get_peer_same p }

  get_dl_same :
      (d : ℕ) (s : Session rb) (v : PieceDl) (t : Session rb) → get_dl d s ≡ ok (v, t) → s ≡ t
  get_dl_same d s v t run = ground arith

  pub get_dl-Reads : {d : ℕ} → Reads {rb = rb} (get_dl d)
  get_dl-Reads {d} = record { same = get_dl_same d }

  pub >>=-Reads :
      {A B : Type 0} {m : Proc rb A} {f : A → Proc rb B}
      → Reads m
      → ((a : A) → Reads (f a))
      → Reads (m >>= f)
  >>=-Reads {m = m} {f = f} k l = record {
    same = λ s b t run. >>=-last m f s (λ a u e r. k.same s a u e ∙ (l a).same u b t r) run;
  }

  pub if-Reads :
      {A : Type 0} (c : Bool) {m n : Proc rb A} → Reads m → Reads n → Reads (if c then m else n)
  if-Reads true k l = k
  if-Reads false k l = l

-- The rules by which a block is taken apart.
pub ruleset blocks = (From-get, From-lift, From-get_peer, From-get_dl, From->>, From-if)

pub ruleset reading =
    (>>=-Reads, if-Reads, get-Reads, pure-Reads, lift-Reads, get_peer-Reads, get_dl-Reads)
