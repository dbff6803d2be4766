-- ===== src/ApiServer/Refusals.antt =====
-- What a handler has done when it refuses a request: the rules that follow its steps.
use mini_k8s.Base.{
  Result, ok, err, ℕ, String, ◌≡◌, refl, ◌∙◌, subst, ◌⊎◌, inl, inr, Bool, true, false, Option, none,
  some, List, [], ◌∷◌, arith,
}
use mini_k8s.ApiServer.Etcd.{Kv}
use mini_k8s.ApiServer.Act.{
  Act, Codec, ◌>>=◌, ◌>>◌, and_then, pure, refuse, or_refuse, require, present, absent, not_found,
  readable, text_or_empty, stored, decode, encode,
}
use mini_k8s.ApiServer.Store.{Reliable, get-text_at, stored-write}

-- The step leaves the store as it was.
pub record ReadsOnly {S A : Type 0} (act : Act S A) : Type 0 where
  pub at : (s : S) → (act s).1 ≡ s

-- An error of the step is answered with 500.
pub record Fails500 {S A : Type 0} (act : Act S A) : Type 0 where
  pub at : (s : S) (statuses : List ℕ) → (act s).0 ≡ err statuses → statuses ≡ 500 ∷ []

-- A handler that ends in an error has left the store as it was, or answered with 500.
pub record RefusesClean {S A : Type 0} (act : Act S A) : Type 0 where
  pub at :
      (s : S) (statuses : List ℕ)
      → (act s).0 ≡ err statuses
      → ((act s).1 ≡ s) ⊎ (statuses ≡ 500 ∷ [])

module _ {S A B : Type 0} where
  pub ReadsOnly-bind :
      (act : Act S A) (next : A → Act S B)
      → ReadsOnly act
      → ((a : A) → ReadsOnly (next a))
      → ReadsOnly (act >>= next)
  ReadsOnly-bind act next r rs = record { at = λ s. ReadsOnly-step (act s) s (r.at s) }
    where
      ReadsOnly-step :
          (first : Result (List ℕ) A × S) (s : S) → first.1 ≡ s → (and_then first next).1 ≡ s
      ReadsOnly-step (ok a, s') s same = (rs a).at s' ∙ same
      ReadsOnly-step (err e, s') s same = same

  pub Fails500-bind :
      (act : Act S A) (next : A → Act S B)
      → Fails500 act
      → ((a : A) → Fails500 (next a))
      → Fails500 (act >>= next)
  Fails500-bind act next f fs = record {
    at = λ s statuses failed. step (act s) (f.at s) statuses failed;
  }
    where
      step :
          (first : Result (List ℕ) A × S)
          → ((statuses : List ℕ) → first.0 ≡ err statuses → statuses ≡ 500 ∷ [])
          → (statuses : List ℕ) → (and_then first next).0 ≡ err statuses
          → statuses ≡ 500 ∷ []
      step (ok a, s') late statuses failed = (fs a).at s' statuses failed
      step (err e, s') late statuses failed = late statuses cc

  pub RefusesClean-bind :
      (act : Act S A) (next : A → Act S B)
      → ReadsOnly act
      → ((a : A) → RefusesClean (next a))
      → RefusesClean (act >>= next)
  RefusesClean-bind act next r cs = record {
    at = λ s statuses failed. step (act s) s (r.at s) statuses failed;
  }
    where
      step :
          (first : Result (List ℕ) A × S) (s : S)
          → first.1 ≡ s
          → (statuses : List ℕ) → (and_then first next).0 ≡ err statuses
          → ((and_then first next).1 ≡ s) ⊎ (statuses ≡ 500 ∷ [])
      step (ok a, s') s same statuses failed =
          subst (λ t. ((next a s').1 ≡ t) ⊎ (statuses ≡ 500 ∷ [])) same
            ((cs a).at s' statuses failed)
      step (err e, s') s same statuses failed = inl same

  pub ReadsOnly-then :
      (act : Act S A) (next : Act S B) → ReadsOnly act → ReadsOnly next → ReadsOnly (act >> next)
  ReadsOnly-then act next r rs = ReadsOnly-bind act (λ _. next) r (λ _. rs)

  pub Fails500-then :
      (act : Act S A) (next : Act S B) → Fails500 act → Fails500 next → Fails500 (act >> next)
  Fails500-then act next f fs = Fails500-bind act (λ _. next) f (λ _. fs)

  pub RefusesClean-then :
      (act : Act S A) (next : Act S B)
      → ReadsOnly act
      → RefusesClean next
      → RefusesClean (act >> next)
  RefusesClean-then act next r cs = RefusesClean-bind act (λ _. next) r (λ _. cs)

module _ {S A : Type 0} where
  pub ReadsOnly-pure : (a : A) → ReadsOnly {S = S} (pure a)
  ReadsOnly-pure a = record { at = λ s. refl }

  pub ReadsOnly-refuse : (status : ℕ) → ReadsOnly {S = S} (refuse {A = A} status)
  ReadsOnly-refuse status = record { at = λ s. refl }

  pub ReadsOnly-or_refuse :
      (status : ℕ) (found : Option A) → ReadsOnly {S = S} (or_refuse status found)
  ReadsOnly-or_refuse status none = record { at = λ s. refl }
  ReadsOnly-or_refuse status (some a) = record { at = λ s. refl }

  pub Fails500-pure : (a : A) → Fails500 {S = S} (pure a)
  Fails500-pure a = record { at = λ s statuses failed. cc }

  pub RefusesClean-refuse : (status : ℕ) → RefusesClean {S = S} (refuse {A = A} status)
  RefusesClean-refuse status = record { at = λ s statuses failed. inl refl }

  pub RefusesClean-Fails500 : (act : Act S A) → Fails500 act → RefusesClean act
  RefusesClean-Fails500 act f = record { at = λ s statuses failed. inr (f.at s statuses failed) }

  pub ReadsOnly-RefusesClean : (act : Act S A) → ReadsOnly act → RefusesClean act
  ReadsOnly-RefusesClean act r = record { at = λ s statuses failed. inl (r.at s) }

pub ReadsOnly-require :
    {S : Type 0} (status : ℕ) (test : Bool) → ReadsOnly {S = S} (require status test)
ReadsOnly-require status true = record { at = λ s. refl }
ReadsOnly-require status false = record { at = λ s. refl }

module _ {S A : Type 0} (codec : Codec A) where
  pub ReadsOnly-decode : (status : ℕ) (text : String) → ReadsOnly {S = S} (decode codec status text)
  unfolding decode
  ReadsOnly-decode status text = record { at = λ s. ground arith }

  pub Fails500-encode : (a : A) → Fails500 {S = S} (encode codec a)
  unfolding encode
  Fails500-encode a = record { at = λ s statuses failed. ground arith }

  pub ReadsOnly-encode : (a : A) → ReadsOnly {S = S} (encode codec a)
  unfolding encode
  ReadsOnly-encode a = record { at = λ s. ground arith }

module _ {S : Type 0} {kv : Kv S} (store : Reliable kv) where
  pub ReadsOnly-present : (status : ℕ) (key : String) → ReadsOnly (present kv status key)
  unfolding present
  ReadsOnly-present status key = record {
    at = λ s. rw (present, get-text_at store key s) (ground (arith, get-text_at store key s));
  }

  pub ReadsOnly-absent : (status : ℕ) (key : String) → ReadsOnly (absent kv status key)
  unfolding absent
  ReadsOnly-absent status key = record {
    at = λ s. rw (absent, get-text_at store key s) (ground (arith, get-text_at store key s));
  }

  pub ReadsOnly-not_found : (status : ℕ) (key : String) → ReadsOnly (not_found kv status key)
  unfolding not_found
  ReadsOnly-not_found status key = record {
    at = λ s. rw (not_found, get-text_at store key s) (ground (arith, get-text_at store key s));
  }

  pub ReadsOnly-readable : (status : ℕ) (key : String) → ReadsOnly (readable kv status key)
  unfolding readable
  ReadsOnly-readable status key = record {
    at = λ s. rw (readable, get-text_at store key s) (ground (arith, get-text_at store key s));
  }

  pub ReadsOnly-text_or_empty : (key : String) → ReadsOnly (text_or_empty kv key)
  unfolding text_or_empty
  ReadsOnly-text_or_empty key = record {
    at = λ s. rw (text_or_empty, get-text_at store key s) (ground (arith, get-text_at store key s));
  }

  pub Fails500-stored : (key text : String) → Fails500 (stored kv key text)
  Fails500-stored key text = record {
    at = λ s statuses failed. absurd (ground (arith, stored-write store key text s));
  }

pub ruleset refusal_rules = (
  ReadsOnly-then, Fails500-then, RefusesClean-then, RefusesClean-bind, ReadsOnly-bind,
  Fails500-bind, ReadsOnly-pure, ReadsOnly-refuse, ReadsOnly-or_refuse, Fails500-pure,
  RefusesClean-refuse, ReadsOnly-require, ReadsOnly-decode, ReadsOnly-encode, Fails500-encode,
  ReadsOnly-present, ReadsOnly-absent, ReadsOnly-not_found, ReadsOnly-readable,
  ReadsOnly-text_or_empty, Fails500-stored,
)
