-- ===== src/Tools/Calculator.antt =====
-- app/tools/calculator.py: arithmetic on a parsed expression. The parser of the language and its floating
-- point numbers are parameters.
pub mod Checked
use agentic_rag.Prelude.{
  ℕ, String, Bool, true, false, ◌||◌, ◌&&◌, Option, none, some, leb, ltb, if◌then◌else◌,
}
use agentic_rag.Prelude.Text.{is_blank, strip}
use agentic_rag.Prelude.Slices.{text_length}
use agentic_rag.Core.Errors.{Result, ok, raise, tool_error, other, ◌>>=◌}

-- the operators of the two tables, and any other
pub data BinaryOp : Type 0 where
  op_add op_sub op_mult op_div op_floor_div op_mod op_pow : BinaryOp
  other_binary : String → BinaryOp

pub data UnaryOp : Type 0 where
  unary_add unary_sub : UnaryOp
  other_unary : String → UnaryOp

-- what an operator of the language returns or raises; a power of a negative base may be complex,
-- which `float` refuses
pub data OpResult (Number : Type 0) : Type 0 where
  value : Number → OpResult Number
  zero_division overflow not_real : OpResult Number

-- `float`, with the infinities and the not-a-number
pub record Numbers : Type 1 where
  pub Number : Type 0
  pub apply : BinaryOp → Number → Number → OpResult Number
  pub negate : Number → Number
  -- `abs(v) > n`
  pub abs_exceeds : Number → ℕ → Bool
  pub is_nan : Number → Bool
  pub is_inf : Number → Bool
  pub is_integer : Number → Bool
  -- `str(int(v))`, and below it `f"{v:g}"`
  pub int_text : Number → String
  pub general_text : Number → String

-- an expression of `ast`: constants, operations, and every other node
pub data Node (Number : Type 0) : Type 0 where
  boolean : Bool → Node Number
  number : Number → Node Number
  unary : UnaryOp → Node Number → Node Number
  binary : BinaryOp → Node Number → Node Number → Node Number
  other_node : String → Node Number

abbrev pub max_exponent : ℕ
max_exponent = 64

abbrev pub max_length : ℕ
max_length = 200

-- `type(op) in _BINARY`
unfoldable pub in_binary : BinaryOp → Bool
in_binary (other_binary name) = false
in_binary _ = true

abbrev pub is_pow : BinaryOp → Bool
is_pow op_pow = true
is_pow _ = false

module _ (N : Numbers) where
  open N use {Number}

  -- the check of a result
  abbrev pub finite_result : OpResult Number → Result Number
  finite_result (value v) = if N.is_nan v || N.is_inf v then raise tool_error else ok v
  finite_result zero_division = raise tool_error
  finite_result overflow = raise tool_error
  finite_result not_real = raise other

  -- `_apply`
  unfoldable pub apply_op : BinaryOp → Number → Number → Result Number
  apply_op op left right =
      if is_pow op && N.abs_exceeds right max_exponent
      then raise tool_error
      else finite_result (N.apply op left right)

  abbrev pub apply_unary : UnaryOp → Number → Number
  apply_unary unary_sub v = N.negate v
  apply_unary _ v = v

  -- `_evaluate`
  unfoldable pub evaluate : Node Number → Result Number
  unfolding in_binary apply_op
  evaluate (boolean b) = raise tool_error
  evaluate (number v) = ok v
  evaluate (unary (other_unary name) operand) = raise tool_error
  evaluate (unary unary_add operand) = evaluate operand >>= λ v. ok v
  evaluate (unary unary_sub operand) = evaluate operand >>= λ v. ok (apply_unary unary_sub v)
  evaluate (binary op left right) =
      let operands = evaluate left >>= λ l. evaluate right >>= λ r. apply_op op l r in
      if in_binary op then operands else raise tool_error
  evaluate (other_node name) = raise tool_error

  -- `_format`
  abbrev pub format : Number → String
  format v = if N.is_integer v then N.int_text v else N.general_text v

  -- the end of `execute`, given what the parser returns
  abbrev pub parsed : Option (Node Number) → Result String
  parsed none = raise tool_error
  parsed (some tree) = evaluate tree >>= λ v. ok (format v)

  unfoldable pub execute : (String → Option (Node Number)) → String → Result String
  unfolding evaluate strip
  execute parse input =
      let expression = strip input in
      if is_blank expression
      then raise tool_error
      else if ltb max_length (text_length expression)
      then raise tool_error
      else parsed (parse expression)
