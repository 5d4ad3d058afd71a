-- ===== src/Security/Alerts.antt =====
-- Which processes raise an alert.
use computecloud_node.Prelude.{
  ℕ, ◌≡◌, refl, Bool, true, List, [], ◌∷◌, ◌++◌, arith, any, not, ◌&&◌, ◌||◌, if◌then◌else◌,
}
use computecloud_node.Python.Text.{is_infix, same_text}
use computecloud_node.Security.{
  check_suspicious_processes, keyword_loop, suspicious_loop, suspicious_keywords, listed,
}

-- The elements with a property, in order.
pub keep : (List ℕ → Bool) → List (List ℕ) → List (List ℕ)
keep p [] = []
keep p (x ∷ xs) = let rest = keep p xs in if p x then x ∷ rest else rest

same_text_refl : (s : List ℕ) → same_text s s ≡ true
unfolding same_text
same_text_refl [] = refl
same_text_refl (c ∷ s) = ground (arith, same_text_refl s)

same_text_eq : (s t : List ℕ) → same_text s t ≡ true → s ≡ t
unfolding same_text
same_text_eq [] [] h = refl
same_text_eq [] (d ∷ t) h = cc
same_text_eq (c ∷ s) [] h = cc
same_text_eq (c ∷ s) (d ∷ t) h = ground (arith, same_text_eq s t)

listed-append :
    (p : List ℕ) (xs ys : List (List ℕ)) → listed p (xs ++ ys) ≡ (listed p xs || listed p ys)
listed-append p [] ys = refl
listed-append p (x ∷ xs) ys = ground (arith, listed-append p xs ys)

listed_last : (p : List ℕ) (xs : List (List ℕ)) → listed p (xs ++ p ∷ []) ≡ true
listed_last p xs = ground (arith, listed-append p xs (p ∷ []), same_text_refl p)

listed_same :
    (p q : List ℕ) (xs : List (List ℕ))
    → listed q xs ≡ true
    → same_text p q ≡ true
    → listed p xs ≡ true
listed_same p q xs h e = rw (same_text_eq p q e) h

module _ (lower : List ℕ → List ℕ) where
  keyword_loop_lem :
      (proc : List ℕ) (kws found : List (List ℕ))
      → keyword_loop lower proc kws found ≡ (
          if any (λ kw. is_infix kw (lower proc)) kws && not (listed proc found)
          then found ++ proc ∷ []
          else found)
  unfolding keyword_loop
  keyword_loop_lem proc [] found = refl
  keyword_loop_lem proc (kw ∷ kws) found = ground (
    arith,
    keyword_loop_lem proc kws found,
    keyword_loop_lem proc kws (found ++ proc ∷ []),
    listed_last proc found,
  )

  -- A name, in lower case, holds a suspicious keyword.
  pub is_suspicious : List ℕ → Bool
  is_suspicious proc = any (λ kw. is_infix kw (lower proc)) suspicious_keywords

  keyword_loop_suspicious :
      (q : List ℕ) (found : List (List ℕ))
      → keyword_loop lower q suspicious_keywords found
        ≡ (if is_suspicious q && not (listed q found) then found ++ q ∷ [] else found)
  unfolding is_suspicious
  keyword_loop_suspicious q found = keyword_loop_lem q suspicious_keywords found

  suspicious_loop_lem :
      (procs found : List (List ℕ)) (p : List ℕ)
      → listed p (suspicious_loop lower procs found)
        ≡ (listed p found || listed p (keep is_suspicious procs))
  unfolding suspicious_loop keep
  suspicious_loop_lem [] found p = ground arith
  suspicious_loop_lem (q ∷ procs) found p = ground (
    arith,
    suspicious_loop_lem procs (keyword_loop lower q suspicious_keywords found) p,
    keyword_loop_suspicious q found,
    listed-append p found (q ∷ []),
    listed_same p q found,
  )

  -- `_check_suspicious_processes` lists a name exactly when it is a process name that holds a
  -- suspicious keyword.
  pub check_suspicious_processes_lem :
      (procs : List (List ℕ)) (p : List ℕ)
      → listed p (check_suspicious_processes lower procs) ≡ listed p (keep is_suspicious procs)
  unfolding check_suspicious_processes
  check_suspicious_processes_lem procs p = suspicious_loop_lem procs [] p
