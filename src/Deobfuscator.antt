-- ===== src/Deobfuscator.antt =====
-- The class `Deobfuscator` of src/Deobfuscator.h and its passes, one child for each group.
pub mod Count
pub mod Asm
pub mod AlwaysInline
pub mod Inline
pub mod Instance
pub mod Table
pub mod Callocs
use squanchy.Base.{◌≡◌, ◌≢◌, refl, ◌⊎◌, inl, inr, ℕ, String, List}
use squanchy.Ir.{Module}

-- The members that the passes read and write. `TLII` and `TLI` are set and never read.
pub record Deobfuscator : Type 0 where
  pub ir : Module
  pub runtime : Module
  pub input_file : String
  pub output_file : String
  pub instruction_count_before : ℕ
  pub ai_function_names : List String

-- How a pass ends: normally, in `report_fatal_error`, in undefined behaviour such as a null pointer
-- that is followed, or not within the fuel that a loop was given.
pub data Outcome {ℓ} (A : Type ℓ) : Type ℓ where
  done : A → Outcome A
  fatal : String → Outcome A
  crash out_of_fuel : Outcome A

pub Outcome-cases {ℓ} :
    {A : Type ℓ} (r : Outcome A) → ((a : A) × (r ≡ done a)) ⊎ ((a : A) → r ≢ done a)
Outcome-cases (done a) = inl (a, refl)
Outcome-cases (fatal e) = inr (λ a. cc)
Outcome-cases crash = inr (λ a. cc)
Outcome-cases out_of_fuel = inr (λ a. cc)

infixl 5 ◌>>=◌
abbrev pub ◌>>=◌ {ℓ κ} : {A : Type ℓ} {B : Type κ} → Outcome A → (A → Outcome B) → Outcome B
done a >>= k = k a
fatal e >>= k = fatal e
crash >>= k = crash
out_of_fuel >>= k = out_of_fuel

-- A chain that returns has a first part that returns.
pub >>=-eq-done {ℓ κ} :
    {A : Type ℓ} {B : Type κ} (r : Outcome A) (k : A → Outcome B) (b : B)
    → (r >>= k) ≡ done b
    → (a : A) × (r ≡ done a) × (k a ≡ done b)
>>=-eq-done (done a) k b h = (a, refl, h)
>>=-eq-done (fatal e) k b h = absurd (cc)
>>=-eq-done crash k b h = absurd (cc)
>>=-eq-done out_of_fuel k b h = absurd (cc)
