-- ===== src/Action.antt =====
-- What the driver's functions return: a value with a nil error, an error, or a run-time panic; and
-- the monad of calls that change the world outside the driver. Go's pairs (value, error) are read
-- as a sum: a value that is returned beside a non-nil error is dropped, as gRPC does.
use civo_csi.Base.{
  String, Bool, false, List, if◌then◌else◌, Option, none, some, ◌⊎◌, inl, inr, ◌≡◌, refl,
}
use civo_csi.Base.Int.{ℤ}

-- google.golang.org/grpc/codes
pub data Code : Type 0 where
  invalid_argument not_found already_exists failed_precondition aborted out_of_range : Code
  unimplemented internal unavailable : Code

-- An error made outside the driver, by what the driver can observe of it: its text, and the
-- answers of `errors.Is(err, civogo.DatabaseVolumeDuplicateNameError)`, `os.IsNotExist(err)`,
-- `mount.IsCorruptedMnt(err)`, `err == exec.ErrNotFound` and `k8serrors.IsNotFound(err)`.
pub record ExternalError : Type 0 where
  pub text : String
  pub is_duplicate_name : Bool
  pub is_not_exist : Bool
  pub is_corrupted_mnt : Bool
  pub is_err_not_found : Bool
  pub is_not_found : Bool

-- An error as the driver makes it: a format with the arguments that it is rendered with.
mutual
  pub data Error : Type 0 where
    status : Code → String → Args → Error  -- `status.Error`, `status.Errorf`
    errorf : String → Args → Error  -- `errors.New`, `fmt.Errorf`
    wrapped : String → Error → Error  -- `fmt.Errorf` with `%w`
    external : ExternalError → Error

  pub data Args : Type 0 where
    end : Args
    text_arg : String → Args → Args
    texts_arg : List String → Args → Args
    int_arg : ℤ → Args → Args
    error_arg : Error → Args → Args
    value_arg : Args → Args  -- a message in Go's `%v` form, which is left out

-- The gRPC code that the caller sees; other errors have none.
abbrev pub code? : Error → Option Code
code? (status c _ _) = some c
code? _ = none

pub data Outcome (A : Type 0) : Type 0 where
  ok : A → Outcome A
  err : Error → Outcome A
  panic : Outcome A

-- The answer of a library call that returns (value, error).
pub data Reply (A : Type 0) : Type 0 where
  reply : A → Reply A
  failed : ExternalError → Reply A

pub Reply-cases :
    {A : Type 0} (r : Reply A) → ((a : A) × (r ≡ reply a)) ⊎ ((e : ExternalError) × (r ≡ failed e))
Reply-cases (reply a) = inl (a, refl)
Reply-cases (failed e) = inr (e, refl)

pub Outcome-cases :
    {A : Type 0} (r : Outcome A)
    → ((a : A) × (r ≡ ok a)) ⊎ ((e : Error) × (r ≡ err e)) ⊎ (r ≡ panic)
Outcome-cases (ok a) = inl (a, refl)
Outcome-cases (err e) = inr (inl (e, refl))
Outcome-cases panic = inr (inr refl)

abbrev pub Action : Type 0 → Type 0 → Type 0
Action W A = W → Outcome A × W

abbrev lift_reply : {A : Type 0} → Reply A → Outcome A
lift_reply (reply a) = ok a
lift_reply (failed e) = err (external e)

abbrev convert : {A : Type 0} → (ExternalError → Error) → Reply A → Outcome A
convert f (reply a) = ok a
convert f (failed e) = err (f e)

abbrev caught : {A : Type 0} → Outcome A → Outcome (A ⊎ Error)
caught (ok a) = ok (inl a)
caught (err e) = ok (inr e)
caught panic = panic

abbrev dropped : Outcome (Unit {0}) → Outcome (Unit {0})
dropped (ok _) = ok tt
dropped (err _) = ok tt
dropped panic = panic

module _ {W : Type 0} where
  abbrev pub pure : {A : Type 0} → A → Action W A
  pure a w = (ok a, w)

  abbrev pub raise : {A : Type 0} → Error → Action W A
  raise e w = (err e, w)

  -- `if cond { return nil, e }`
  abbrev pub raise_if : Bool → Error → Action W (Unit {0})
  raise_if c e w = (if c then err e else ok tt, w)

  infixl 5 ◌>>=◌ ◌>>◌
  abbrev pub ◌>>=◌ : {A B : Type 0} → Action W A → (A → Action W B) → Action W B
  ◌>>=◌ m f w =
      let (r, w') = m w in elim r [ ok a ↦ f a w' | err e ↦ (err e, w') | panic ↦ (panic, w') ]

  abbrev pub ◌>>◌ : {A B : Type 0} → Action W A → Action W B → Action W B
  m >> k = m >>= λ _. k

  -- A call whose error is looked at by the caller.
  abbrev pub try : {A : Type 0} → (W → Reply A × W) → Action W (Reply A)
  try call w = let (r, w') = call w in (ok r, w')

  -- A call whose error is returned as it is: `if err != nil { return nil, err }`.
  abbrev pub call : {A : Type 0} → (W → Reply A × W) → Action W A
  call c w = let (r, w') = c w in (lift_reply r, w')

  -- A call whose error is returned in another form.
  abbrev pub call_or : {A : Type 0} → (ExternalError → Error) → (W → Reply A × W) → Action W A
  call_or f c w = let (r, w') = c w in (convert f r, w')

  -- `v, err := m`, where the caller goes on with either.
  abbrev pub attempt : {A : Type 0} → Action W A → Action W (A ⊎ Error)
  attempt m w = let (r, w') = m w in (caught r, w')

  -- A call whose error is not looked at.
  abbrev pub ignore_error : Action W (Unit {0}) → Action W (Unit {0})
  ignore_error m w = let (r, w') = m w in (dropped r, w')

  -- A step of the world that returns a value and no error.
  abbrev pub read : {A : Type 0} → (W → A × W) → Action W A
  read f w = let (a, w') = f w in (ok a, w')

  -- A step of the world that returns nothing.
  abbrev pub effect : (W → W) → Action W (Unit {0})
  effect f w = (ok tt, f w)

-- `os.IsNotExist` and `mount.IsCorruptedMnt`, which do not look inside an error that wraps another.
abbrev pub is_not_exist : Error → Bool
is_not_exist (external e) = e.is_not_exist
is_not_exist _ = false

abbrev pub is_corrupted_mnt : Error → Bool
is_corrupted_mnt (external e) = e.is_corrupted_mnt
is_corrupted_mnt _ = false

-- The gRPC code of an outcome that is an error with one.
abbrev pub code_of : {A : Type 0} → Outcome A → Option Code
code_of (err e) = code? e
code_of _ = none
