-- ===== src/Float.antt =====
-- float64 and package math as the program uses them. The numbers and the operations are parameters;
-- no law is assumed of them. A Go int is kept as its 64 bits.
pub mod Sample
use bloom_filter_jyy_0098_go.Base.{ℕ, Bool}

pub record Floats : Type 1 where
  pub F : Type 0
  -- `decimal a b` is the literal a / 10^b.
  pub decimal : ℕ → ℕ → F
  pub ln2 : F
  pub of_uint : ℕ → F
  pub of_int : ℕ → F
  pub to_uint : F → ℕ
  pub to_int : F → ℕ
  pub add : F → F → F
  pub sub : F → F → F
  pub mul : F → F → F
  pub div : F → F → F
  pub neg : F → F
  pub lt : F → F → Bool
  pub le : F → F → Bool
  pub log : F → F
  pub exp : F → F
  pub pow : F → F → F
  pub round : F → F
  pub ceil : F → F
