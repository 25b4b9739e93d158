-- ===== src/Session/Outcome.antt =====
-- Methods of a session that may fail: an action changes the members, and it returns a value, or
-- `if (result != C2_OK) return result` ends the method. Members that were written stay written.
use hardware_floral_codec.Common.{◌≡◌, ◌≢◌, refl, Bool, true, false, Option, none, some}
use hardware_floral_codec.Session.{
  C2Status, c2_ok, c2_blocking, c2_bad_value, c2_bad_state, c2_not_found, c2_no_init, c2_no_memory,
  c2_corrupted, c2_omitted, c2_timed_out, c2_other,
}

pub data Outcome (A : Type 0) : Type 0 where
  returns : A → Outcome A
  fails : C2Status → Outcome A

abbrev pub Action : Type 0 → Type 0 → Type 0
Action X A = X → X × Outcome A

module _ {X : Type 0} where
  unfoldable pub after : {A B : Type 0} → (A → Action X B) → X × Outcome A → X × Outcome B
  after f (x, returns a) = f a x
  after f (x, fails e) = (x, fails e)

  infixl 5 ◌>>=◌ ◌>>◌
  unfoldable pub ◌>>=◌ : {A B : Type 0} → Action X A → (A → Action X B) → Action X B
  unfolding after
  ◌>>=◌ m f x = after f (m x)

  unfoldable pub ◌>>◌ : {A B : Type 0} → Action X A → Action X B → Action X B
  unfolding after
  ◌>>◌ m k x = after (λ _. k) (m x)

  unfoldable pub pure : {A : Type 0} → A → Action X A
  pure a x = (x, returns a)

  abbrev pub gets : {A : Type 0} → (X → A) → Action X A
  gets f x = (x, returns (f x))

  unfoldable pub modify : (X → X) → Action X (Unit {0})
  modify f x = (f x, returns tt)

  -- A test that must hold.
  unfoldable pub demand : Bool → C2Status → Action X (Unit {0})
  demand true e x = (x, returns tt)
  demand false e x = (x, fails e)

-- A c2_status_t as an outcome.
abbrev pub of_status : C2Status → Outcome (Unit {0})
of_status c2_ok = returns tt
of_status e = fails e

-- A call of the device: its answer, or C2_CORRUPTED where it fails, as `Error` has it.
abbrev pub answer : {A : Type 0} → Option A → Outcome A
answer none = fails c2_corrupted
answer (some a) = returns a

abbrev pub answered : Bool → Outcome (Unit {0})
answered true = returns tt
answered false = fails c2_corrupted

module _ {X : Type 0} where
  abbrev pub Holds :
      {A : Type 0} → (A → X → Type 0) → (C2Status → X → Type 0) → X × Outcome A → Type 0
  Holds Q E (x, returns a) = Q a x
  Holds Q E (x, fails e) = E e x

  -- What an action leaves: `Q` with its value, or `E` with its error.
  pub record Ensures {A : Type 0} (Q : A → X → Type 0) (E : C2Status → X → Type 0)
      (r : X × Outcome A) : Type 0 where
    pub holds : Holds Q E r

  module _ {A B : Type 0} (P : A → X → Type 0) {Q : B → X → Type 0}
      {E : C2Status → X → Type 0} where
    after_lem :
        (f : A → Action X B) (r : X × Outcome A)
        → Holds P E r
        → ((a : A) (x : X) → P a x → Ensures Q E (f a x))
        → Holds Q E (after f r)
    unfolding after
    after_lem f (x, returns a) h k = (k a x h).holds
    after_lem f (x, fails e) h k = h

    pub after-Ensures :
        (f : A → Action X B) (r : X × Outcome A)
        → Ensures P E r
        → ((a : A) (x : X) → P a x → Ensures Q E (f a x))
        → Ensures Q E (after f r)
    after-Ensures f r h k = record { holds = after_lem f r h.holds k }

    -- A rule for each construct of a `do` block.
    pub bind-Ensures :
        (m : Action X A) (f : A → Action X B) (x : X)
        → Ensures P E (m x)
        → ((a : A) (x' : X) → P a x' → Ensures Q E (f a x'))
        → Ensures Q E ((m >>= f) x)
    unfolding ◌>>=◌
    bind-Ensures m f x h k = record { holds = after_lem f (m x) h.holds k }

    pub then-Ensures :
        (m : Action X A) (k : Action X B) (x : X)
        → Ensures P E (m x)
        → ((a : A) (x' : X) → P a x' → Ensures Q E (k x'))
        → Ensures Q E ((m >> k) x)
    unfolding ◌>>◌
    then-Ensures m k x h l = record { holds = after_lem (λ _. k) (m x) h.holds l }

  pub mono-Ensures :
      {A : Type 0} {P Q : A → X → Type 0} {E F : C2Status → X → Type 0} {r : X × Outcome A}
      → Ensures P E r
      → ((a : A) (x : X) → P a x → Q a x)
      → ((e : C2Status) (x : X) → E e x → F e x)
      → Ensures Q F r
  mono-Ensures {r = (x, returns a)} h k l = record { holds = k a x h.holds }
  mono-Ensures {r = (x, fails e)} h k l = record { holds = l e x h.holds }

  -- A value that is left is that of the run.
  pub traced-Ensures :
      {A : Type 0} {P : A → X → Type 0} {E : C2Status → X → Type 0} {r : X × Outcome A}
      → Ensures P E r
      → Ensures (λ a x. (r ≡ (x, returns a)) × P a x) E r
  traced-Ensures {r = (x, returns a)} h = record { holds = (refl, h.holds) }
  traced-Ensures {r = (x, fails e)} h = record { holds = h.holds }

  module _ {A : Type 0} {Q : A → X → Type 0} {E : C2Status → X → Type 0} (x : X) where
    pub pure-Ensures : (a : A) → Q a x → Ensures Q E (pure a x)
    unfolding pure
    pure-Ensures a h = record { holds = h }

    pub answer-Ensures :
        (r : Option A)
        → ((a : A) → r ≡ some a → Q a x)
        → E c2_corrupted x
        → Ensures Q E (x, answer r)
    answer-Ensures none q bad = record { holds = bad }
    answer-Ensures (some a) q bad = record { holds = q a refl }

  module _ {Q : Unit {0} → X → Type 0} {E : C2Status → X → Type 0} (x : X) where
    pub modify-Ensures : (f : X → X) → Q tt (f x) → Ensures Q E (modify f x)
    unfolding modify
    modify-Ensures f h = record { holds = h }

    pub demand-Ensures :
        (b : Bool) (e : C2Status) → (b ≡ true → Q tt x) → E e x → Ensures Q E (demand b e x)
    unfolding demand
    demand-Ensures true e q bad = record { holds = q refl }
    demand-Ensures false e q bad = record { holds = bad }

    pub status-Ensures :
        (e : C2Status) → (e ≡ c2_ok → Q tt x) → (e ≢ c2_ok → E e x) → Ensures Q E (x, of_status e)
    status-Ensures c2_ok q bad = record { holds = q refl }
    status-Ensures c2_blocking q bad = record { holds = bad (λ h. cc) }
    status-Ensures c2_bad_value q bad = record { holds = bad (λ h. cc) }
    status-Ensures c2_bad_state q bad = record { holds = bad (λ h. cc) }
    status-Ensures c2_not_found q bad = record { holds = bad (λ h. cc) }
    status-Ensures c2_no_init q bad = record { holds = bad (λ h. cc) }
    status-Ensures c2_no_memory q bad = record { holds = bad (λ h. cc) }
    status-Ensures c2_corrupted q bad = record { holds = bad (λ h. cc) }
    status-Ensures c2_omitted q bad = record { holds = bad (λ h. cc) }
    status-Ensures c2_timed_out q bad = record { holds = bad (λ h. cc) }
    status-Ensures (c2_other n) q bad = record { holds = bad (λ h. cc) }

    pub answered-Ensures :
        (b : Bool) → (b ≡ true → Q tt x) → E c2_corrupted x → Ensures Q E (x, answered b)
    answered-Ensures true q bad = record { holds = q refl }
    answered-Ensures false q bad = record { holds = bad }
