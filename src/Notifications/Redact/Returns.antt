-- ===== src/Notifications/Redact/Returns.antt =====
-- The loop ends.
use catnap.Common.{
  ℕ, zero, suc, ◌+◌, ◌≤◌, Bool, true, false, ◌≡◌, refl, ap, List, [], ◌∷◌, ◌++◌, Option, none, some,
  map_some, length, arith, Option-cases, Bool-cases, inl, inr, is_whitespace, ◌==◌, if◌then◌else◌,
  eq_nat, none-ne-some, some_inj, subst,
}
use catnap.Notifications.Redact.{
  token_length, match_token_boundaries, pass, redacted_here, redacted_text, redact_from,
  redact_with_optional_whitespace,
}

pass-length : (n : ℕ) (before chars : List ℕ) → length (pass n before chars).1 ≤ length chars
pass-length zero before chars = omega arith
pass-length (suc n) before [] = omega arith
pass-length (suc n) before (c ∷ cs) = omega (arith, pass-length n (c ∷ before) cs)

suc-pos : (o : Option ℕ) (n : ℕ) → map_some suc o ≡ some n → 1 ≤ n
suc-pos none n h = absurd (none-ne-some h)
suc-pos (some k) n h = omega (arith, some_inj h)

three_ways-pos :
    (white consumed same : Bool) (skipped read : Option ℕ) (n : ℕ)
    → (if white
        then (if consumed then map_some suc skipped else none)
        else (if same then map_some suc read else none))
      ≡ some n
    → 1 ≤ n
three_ways-pos true true same skipped read n h = suc-pos skipped n h
three_ways-pos true false same skipped read n h = absurd (none-ne-some h)
three_ways-pos false consumed true skipped read n h = suc-pos read n h
three_ways-pos false consumed false skipped read n h = absurd (none-ne-some h)

-- A token that is not empty takes a character.
token_length-pos :
    (chars : List ℕ) (t : ℕ) (ts : List ℕ) (n : ℕ) (consumed : Bool)
    → token_length consumed chars (t ∷ ts) ≡ some n
    → 1 ≤ n
unfolding token_length
token_length-pos [] t ts n consumed h = absurd (none-ne-some h)
token_length-pos (c ∷ cs) t ts n consumed h =
    three_ways-pos (is_whitespace c) consumed (c == t) (token_length consumed cs (t ∷ ts))
      (token_length true cs ts) n h

redacted_here-pos :
    (t : ℕ) (ts before chars : List ℕ) (n : ℕ)
    → redacted_here (t ∷ ts) before chars ≡ some n
    → 1 ≤ n
unfolding redacted_here
redacted_here-pos t ts before chars n h = elim (Option-cases (token_length false chars (t ∷ ts))) [
  | inl missing ↦ absurd (none-ne-some (rw (redacted_here, missing) at h))
  | inr (k, found) ↦ elim (Bool-cases (match_token_boundaries before (pass k before chars).1)) [
    | inl word ↦
        subst (λ x. 1 ≤ x) (some_inj (rw (redacted_here, found, word) at h))
          (token_length-pos chars t ts k false found)
    | inr inside ↦ absurd (none-ne-some (rw (redacted_here, found, inside) at h))
  ]
]

pass-pos :
    (n : ℕ) (before : List ℕ) (c : ℕ) (cs : List ℕ)
    → 1 ≤ n
    → length (pass n before (c ∷ cs)).1 ≤ length cs
pass-pos zero before c cs l = absurd (omega (arith, l))
pass-pos (suc n) before c cs l = pass-length n (c ∷ before) cs

-- Both runs of what is left, with what stands before it.
prefixed :
    (front : List ℕ → List ℕ) (a b : Option (List ℕ))
    → (out : List ℕ) × (a ≡ some out) × (b ≡ some out)
    → (out : List ℕ) × (map_some front a ≡ some out) × (map_some front b ≡ some out)
prefixed front a b (out, p, q) = (front out, ap (map_some front) p, ap (map_some front) q)

redact_from-returns :
    (f g t : ℕ) (ts before chars : List ℕ)
    → length chars ≤ f
    → length chars ≤ g
    → (out : List ℕ) × (redact_from f (t ∷ ts) before chars ≡ some out)
      × (redact_from g (t ∷ ts) before chars ≡ some out)
unfolding redact_from
redact_from-returns f g t ts before [] l m = ([], refl, refl)
redact_from-returns zero g t ts before (c ∷ cs) l m = absurd (omega (arith, l))
redact_from-returns (suc f) zero t ts before (c ∷ cs) l m = absurd (omega (arith, m))
redact_from-returns (suc f) (suc g) t ts before (c ∷ cs) l m =
    elim (Option-cases (redacted_here (t ∷ ts) before (c ∷ cs))) [
      | inl other ↦
          rw (redact_from, other)
            (prefixed (λ out. c ∷ out) (redact_from f (t ∷ ts) (c ∷ before) cs)
              (redact_from g (t ∷ ts) (c ∷ before) cs)
              (redact_from-returns f g t ts (c ∷ before) cs (omega (arith, l)) (omega (arith, m))))
      | inr (n, found) ↦
          rw (redact_from, found)
            (let rest = pass n before (c ∷ cs) in
              let shorter =
                pass-pos n before c cs (redacted_here-pos t ts before (c ∷ cs) n found) in
              prefixed (λ out. redacted_text ++ out) (redact_from f (t ∷ ts) rest.0 rest.1)
                (redact_from g (t ∷ ts) rest.0 rest.1)
                (redact_from-returns f g t ts rest.0 rest.1 (omega (arith, l, shorter))
                  (omega (arith, m, shorter))))
    ]

-- The loop that takes a token out of a text returns, and with more fuel than the length of the text it
-- returns the same.
redact_returns :
    (text : List ℕ) (t : ℕ) (token : List ℕ) (more : ℕ)
    → (out : List ℕ) × (redact_with_optional_whitespace text (t ∷ token) ≡ some out)
      × (redact_from (length text + more) (t ∷ token) [] text ≡ some out)
unfolding redact_with_optional_whitespace
redact_returns text t token more =
    redact_from-returns (length text) (length text + more) t token [] text (omega arith)
      (omega arith)
