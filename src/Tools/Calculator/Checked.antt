-- ===== src/Tools/Calculator/Checked.antt =====
-- What the calculator of app/tools/calculator.py accepts, returns and raises.
use agentic_rag.Prelude.{◌≡◌, ◌⊎◌, inl, inr, refl, true, false, ◌||◌, ◌&&◌, Bool-cases}
use agentic_rag.Core.Errors.{other, Result, ok, raise, tool_error, ◌>>=◌}
use agentic_rag.Tools.Calculator.{
  max_exponent, BinaryOp, unary_add, unary_sub, other_unary, OpResult, value, zero_division,
  overflow, not_real, Numbers, Node, boolean, number, unary, binary, other_node, in_binary, is_pow,
  finite_result, apply_op, evaluate,
}

module _ (N : Numbers) where
  open N use {Number}

  abbrev pub IsFinite : Number → Type 0
  IsFinite v = N.is_nan v || N.is_inf v ≡ false

  -- an operation on these operands that the tool lets through, and that has no real result
  pub record IsUnreal (op : BinaryOp) (left right : Number) : Type 0 where
    pub let_through : (is_pow op && N.abs_exceeds right max_exponent) ≡ false
    pub unreal : N.apply op left right ≡ not_real

  -- an operation inside the expression has operands whose values have no real result
  abbrev pub HasUnreal : Node Number → Type 0
  HasUnreal (unary op operand) = HasUnreal operand
  HasUnreal (binary op left right) =
      HasUnreal left
      ⊎ (HasUnreal right
          ⊎ ((l : Number) × (r : Number) × (evaluate N left ≡ ok l)
              × (evaluate N right ≡ ok r)
              × IsUnreal op l r))
  HasUnreal _ = ⊥

  -- a finite value, an error of the tool, or the error described by `P`
  abbrev pub Allowed : Type 0 → Result Number → Type 0
  Allowed P (ok v) = IsFinite v
  Allowed P (raise x) = (x ≡ tool_error) ⊎ ((x ≡ other) × P)

  -- only numbers, signs and the operators of the table; each number is finite
  abbrev pub IsArithmetic : Node Number → Type 0
  IsArithmetic (boolean b) = ⊥
  IsArithmetic (number v) = Unit
  IsArithmetic (unary (other_unary name) operand) = ⊥
  IsArithmetic (unary unary_add operand) = IsArithmetic operand
  IsArithmetic (unary unary_sub operand) = IsArithmetic operand
  IsArithmetic (binary op left right) =
      (in_binary op ≡ true) × IsArithmetic left × IsArithmetic right
  IsArithmetic (other_node name) = ⊥

  abbrev pub HasFinite : Node Number → Type 0
  HasFinite (number v) = IsFinite v
  HasFinite (unary op operand) = HasFinite operand
  HasFinite (binary op left right) = HasFinite left × HasFinite right
  HasFinite _ = Unit

  bind-Allowed :
      {P Q : Type 0} (r : Result Number) (f : Number → Result Number)
      → Allowed P r
      → (P → Q)
      → ((v : Number) → r ≡ ok v → IsFinite v → Allowed Q (f v))
      → Allowed Q (r >>= f)
  bind-Allowed (ok v) f a p h = h v refl a
  bind-Allowed (raise x) f (inl e) p h = inl e
  bind-Allowed (raise x) f (inr (e, q)) p h = inr (e, p q)

  finite_result-Allowed :
      (op : BinaryOp) (left right : Number) (r : OpResult Number)
      → (is_pow op && N.abs_exceeds right max_exponent) ≡ false
      → N.apply op left right ≡ r
      → Allowed (IsUnreal op left right) (finite_result N r)
  finite_result-Allowed op left right (value v) fine e =
      elim (Bool-cases (N.is_nan v || N.is_inf v)) [
        | inl bad ↦ rw bad (inl refl)
        | inr good ↦ rw good good
      ]
  finite_result-Allowed op left right zero_division fine e = inl refl
  finite_result-Allowed op left right overflow fine e = inl refl
  finite_result-Allowed op left right not_real fine e =
      inr (refl, record { let_through = fine; unreal = e })

  apply_op-Allowed :
      (op : BinaryOp) (left right : Number)
      → Allowed (IsUnreal op left right) (apply_op N op left right)
  unfolding apply_op
  apply_op-Allowed op left right =
      elim (Bool-cases (is_pow op && N.abs_exceeds right max_exponent)) [
        | inl too_large ↦ rw too_large (inl refl)
        | inr fine ↦ rw fine (finite_result-Allowed op left right (N.apply op left right) fine refl)
      ]

  Allowed-weaken : {P Q : Type 0} (r : Result Number) → (P → Q) → Allowed P r → Allowed Q r
  Allowed-weaken (ok v) p a = a
  Allowed-weaken (raise x) p (inl e) = inl e
  Allowed-weaken (raise x) p (inr (e, q)) = inr (e, p q)

  module _ (negated : (v : Number) → IsFinite v → IsFinite (N.negate v)) where
    evaluate-Allowed : (n : Node Number) → HasFinite n → Allowed (HasUnreal n) (evaluate N n)
    unfolding evaluate
    evaluate-Allowed (boolean b) h = inl refl
    evaluate-Allowed (number v) h = h
    evaluate-Allowed (unary (other_unary name) operand) h = inl refl
    evaluate-Allowed (unary unary_add operand) h =
        bind-Allowed (evaluate N operand) (λ v. ok v) (evaluate-Allowed operand h) (λ p. p)
          (λ v e f. f)
    evaluate-Allowed (unary unary_sub operand) h =
        bind-Allowed (evaluate N operand) (λ v. ok (N.negate v)) (evaluate-Allowed operand h)
          (λ p. p) (λ v e f. negated v f)
    evaluate-Allowed (binary op left right) h = elim (Bool-cases (in_binary op)) [
      | inl known ↦ rw known (
          bind-Allowed (evaluate N left) _ (evaluate-Allowed left h.0) (λ p. inl p)
            (λ l el fl.
              bind-Allowed (evaluate N right) _ (evaluate-Allowed right h.1) (λ p. inr (inl p))
                (λ r er fr.
                  Allowed-weaken (apply_op N op l r) (λ p. inr (inr (l, r, el, er, p)))
                    (apply_op-Allowed op l r))))
      | inr unknown ↦ rw unknown (inl refl)
    ]
    evaluate-Allowed (other_node name) h = inl refl

  bind-eq-ok :
      {A B : Type 0} (r : Result A) (f : A → Result B) (b : B)
      → (r >>= f) ≡ ok b
      → (a : A) × (r ≡ ok a) × (f a ≡ ok b)
  bind-eq-ok (ok a) f b h = (a, refl, h)
  bind-eq-ok (raise x) f b h = absurd (cc h)

  evaluate-IsArithmetic : (n : Node Number) (v : Number) → evaluate N n ≡ ok v → IsArithmetic n
  unfolding evaluate
  evaluate-IsArithmetic (boolean b) v h = absurd (cc h)
  evaluate-IsArithmetic (number w) v h = tt
  evaluate-IsArithmetic (unary (other_unary name) operand) v h = absurd (cc h)
  evaluate-IsArithmetic (unary unary_add operand) v h =
      let (w, e, f) = bind-eq-ok (evaluate N operand) (λ u. ok u) v h in
      evaluate-IsArithmetic operand w e
  evaluate-IsArithmetic (unary unary_sub operand) v h =
      let (w, e, f) = bind-eq-ok (evaluate N operand) (λ u. ok (N.negate u)) v h in
      evaluate-IsArithmetic operand w e
  evaluate-IsArithmetic (binary op left right) v h = elim (Bool-cases (in_binary op)) [
    | inl known ↦
        let (l, el, rest) = bind-eq-ok (evaluate N left) _ v (rw known at h) in
        let (r, er, last) = bind-eq-ok (evaluate N right) _ v rest in
        (known, evaluate-IsArithmetic left l el, evaluate-IsArithmetic right r er)
    | inr unknown ↦ absurd (cc (rw unknown at h))
  ]
  evaluate-IsArithmetic (other_node name) v h = absurd (cc h)

  -- what an evaluation of the expression may come to
  abbrev pub IsChecked : Node Number → Result Number → Type 0
  IsChecked n (ok v) = IsArithmetic n × IsFinite v
  IsChecked n (raise x) = (x ≡ tool_error) ⊎ ((x ≡ other) × HasUnreal n)

  result-IsChecked :
      (n : Node Number) (r : Result Number)
      → Allowed (HasUnreal n) r
      → ((v : Number) → r ≡ ok v → IsArithmetic n)
      → IsChecked n r
  result-IsChecked n (ok v) a h = (h v refl, a)
  result-IsChecked n (raise x) a h = a

  -- Evaluating an expression whose literals are finite ends in one of three ways. A value is finite,
  -- and then the expression has only numbers, signs and the operators of the table. An error is the
  -- tool's own; or it is another one, and then the expression has an operation, not refused for its
  -- exponent, whose operands evaluate to numbers for which it has no real result.
  pub evaluate-IsChecked :
      (n : Node Number)
      → ((v : Number) → IsFinite v → IsFinite (N.negate v))
      → HasFinite n
      → IsChecked n (evaluate N n)
  evaluate-IsChecked n negated h =
      result-IsChecked n (evaluate N n) (evaluate-Allowed negated n h) (evaluate-IsArithmetic n)
