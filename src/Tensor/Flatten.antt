-- ===== src/Tensor/Flatten.antt =====
-- `_flatten` against a recursion over the nested list.
use computecloud_node.Prelude.{
  ℕ, zero, suc, ◌+◌, ◌<◌, ◌≡◌, refl, ap, ◌∙◌, sym, some, List, [], ◌∷◌, ◌++◌, append_assoc,
  append-nil, arith,
}
use computecloud_node.Python.{
  Result, ok, raise, value_error, ◌>>=◌, Value, null, bool, int, float, str, arr, obj, Items, nil,
  cons, list_of,
}
use computecloud_node.Tensor.Nested.{number_of, flatten_loop, size, size_items, flatten}

-- The elements of a nested list from left to right.
unfoldable mutual
  pub leaves : Value → Result (List Value)
  leaves (arr xs) = leaves_items xs
  leaves (int z) = ok (int z ∷ [])
  leaves (float bits) = ok (float bits ∷ [])
  leaves (str s) = raise value_error
  leaves (bool b) = number_of (bool b) >>= (λ v. ok (v ∷ []))
  leaves null = raise value_error
  leaves (obj d) = raise value_error

  pub leaves_items : Items → Result (List Value)
  leaves_items nil = ok []
  leaves_items (cons x xs) = leaves x >>= (λ a. leaves_items xs >>= (λ b. ok (a ++ b)))

-- The elements of a stack.
stack_leaves : List Value → Result (List Value)
stack_leaves [] = ok []
stack_leaves (v ∷ vs) =
    let rest = stack_leaves vs in leaves v >>= (λ a. rest >>= (λ b. ok (a ++ b)))

stack_size : List Value → ℕ
stack_size [] = 0
stack_size (v ∷ vs) = size v + stack_size vs

stack_size-append :
    (xs : Items) (st : List Value) → stack_size (list_of xs ++ st) ≡ size_items xs + stack_size st
unfolding stack_size size
stack_size-append nil st = omega arith
stack_size-append (cons x xs) st = omega (arith, stack_size-append xs st)

-- Three runs of elements, one after the other.
join_assoc :
    (r s : Result (List Value)) (a : List Value)
    → ((r >>= (λ b. s >>= (λ c. ok (b ++ c)))) >>= (λ d. ok (a ++ d)))
      ≡ ((r >>= (λ b. ok (a ++ b))) >>= (λ d. s >>= (λ c. ok (d ++ c))))
join_assoc (raise exc) s a = refl
join_assoc (ok b) (raise exc) a = refl
join_assoc (ok b) (ok c) a = ap ok (sym (append_assoc a b c))

join_after :
    (l r s : Result (List Value))
    → (l >>= (λ a. (r >>= (λ b. s >>= (λ c. ok (b ++ c)))) >>= (λ d. ok (a ++ d))))
      ≡ ((l >>= (λ a. r >>= (λ b. ok (a ++ b)))) >>= (λ d. s >>= (λ c. ok (d ++ c))))
join_after (raise exc) r s = refl
join_after (ok a) r s = join_assoc r s a

join_empty : (r : Result (List Value)) → (r >>= (λ b. ok ([] ++ b))) ≡ r
join_empty (raise exc) = refl
join_empty (ok b) = refl

stack_leaves-append :
    (xs : Items) (st : List Value)
    → stack_leaves (list_of xs ++ st)
      ≡ (leaves_items xs >>= (λ a. stack_leaves st >>= (λ b. ok (a ++ b))))
unfolding stack_leaves leaves
stack_leaves-append nil st = sym (join_empty (stack_leaves st))
stack_leaves-append (cons x xs) st =
    rw (stack_leaves-append xs st) (join_after (leaves x) (leaves_items xs) (stack_leaves st))

-- The result of the loop: what is out already, then the elements of the stack.
abbrev after : List Value → Result (List Value) → Result (List Value)
after out (raise exc) = raise exc
after out (ok r) = ok (out ++ r)

after_last :
    (out : List Value) (v : Value) (r : Result (List Value))
    → after (out ++ v ∷ []) r ≡ after out (ok (v ∷ []) >>= (λ a. r >>= (λ b. ok (a ++ b))))
after_last out v (raise exc) = refl
after_last out v (ok r) = ap ok (append_assoc out (v ∷ []) r)

alone : (r : Result (List Value)) → after [] (r >>= (λ a. ok [] >>= (λ b. ok (a ++ b)))) ≡ r
alone (raise exc) = refl
alone (ok a) = ap ok (append-nil a)

flatten_loop-leaves :
    (fuel : ℕ) (stack out : List Value)
    → stack_size stack < fuel
    → flatten_loop fuel stack out ≡ some (after out (stack_leaves stack))
unfolding flatten_loop stack_size stack_leaves leaves size
flatten_loop-leaves zero stack out h = absurd (omega arith)
flatten_loop-leaves (suc fuel) [] out h = ap some (ap ok (sym (append-nil out)))
flatten_loop-leaves (suc fuel) (arr xs ∷ st) out h =
    flatten_loop-leaves fuel (list_of xs ++ st) out (omega (arith, stack_size-append xs st))
    ∙ rw (stack_leaves-append xs st)
flatten_loop-leaves (suc fuel) (int z ∷ st) out h =
    flatten_loop-leaves fuel st (out ++ int z ∷ []) (omega arith) ∙ ap some (after_last out _ _)
flatten_loop-leaves (suc fuel) (float bits ∷ st) out h =
    flatten_loop-leaves fuel st (out ++ float bits ∷ []) (omega arith)
    ∙ ap some (after_last out _ _)
flatten_loop-leaves (suc fuel) (bool b ∷ st) out h =
    flatten_loop-leaves fuel st (out ++ _ ∷ []) (omega arith) ∙ ap some (after_last out _ _)
flatten_loop-leaves (suc fuel) (str s ∷ st) out h = refl
flatten_loop-leaves (suc fuel) (null ∷ st) out h = refl
flatten_loop-leaves (suc fuel) (obj d ∷ st) out h = refl

-- `_flatten` ends, and gives what a recursion over the nested list gives: its elements from left to
-- right, a `bool` as an `int`, or a `ValueError` if one of them is no number.
pub flatten-leaves : (nested : Value) → flatten nested ≡ some (leaves nested)
unfolding flatten stack_leaves
flatten-leaves nested =
    flatten_loop-leaves (suc (size nested)) (nested ∷ []) [] (unfold stack_size in omega arith)
    ∙ ap some (alone (leaves nested))
