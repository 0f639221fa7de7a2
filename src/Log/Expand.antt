-- ===== src/Log/Expand.antt =====
-- kernel/printk.c against what a format stands for: the bytes that it expands to, as a list.
use synos.Prelude.{
  ℕ, zero, suc, ◌+◌, ◌-◌, ◌^◌, ◌≤◌, ◌<◌, ◌≡◌, refl, sym, ap, ◌∙◌, Bool, true, false, Option, none,
  some, List, [], ◌∷◌, ◌++◌, arith, ltb, ◌==◌, if◌then◌else◌, Bool-cases, inl, inr,
}
use mathlib.Core.List.{append_assoc, append-nil}
use synos.Str.{Str, new_string, string_alloc_length}
use synos.Str.Append.{string_append-Joined}
use synos.Str.Sound.{Sound, string_append-Sound, new_string-Sound}
use synos.Str.Contents.{first, contents, first-add, contents-string_append}
use synos.Log.Convert.{conversion, weight, Short, Appends, both_fail, both_append, convert-Appends}
use synos.Log.{Arg, Printing, flush, flush_rest, printk_loop, printk_message}

unfoldable pub prepend : List ℕ → Option (List ℕ) → Option (List ℕ)
prepend text none = none
prepend text (some rest) = some (text ++ rest)

-- The bytes that a format expands to: `%` and the character behind it are replaced, a `%` at the end
-- is dropped, and every other byte stands for itself.
unfoldable pub expand : (ℕ → ℕ) → List ℕ → List Arg → Option (List ℕ)
unfolding prepend
expand fresh [] args = some []
expand fresh (b ∷ []) args = if b == 37 then some [] else some (b ∷ [])
expand fresh (b ∷ c ∷ rest) args =
    let plain = prepend (b ∷ []) (expand fresh (c ∷ rest) args) in
    let converted : Option (List ℕ) = elim (conversion fresh c args) [
      | none ↦ none
      | some (text, args') ↦ prepend text (expand fresh rest args')
    ] in
    if b == 37 then converted else plain

-- `n` bytes of a memory from `i` on.
unfoldable pub bytes_from : (ℕ → ℕ) → ℕ → ℕ → List ℕ
bytes_from str i zero = []
bytes_from str i (suc n) = str i ∷ bytes_from str (i + 1) n

module _ (fresh str : ℕ → ℕ) (org_len : ℕ) where
  -- The bytes of the message so far, with those that are yet to be copied.
  abbrev so_far : Printing → List ℕ
  so_far p = contents p.lstr ++ first p.lcpy (λ k. str (p.lstart + k))

  -- What the loop still appends, or both fail.
  data Rest (p : Printing) : Option Printing → Option (List ℕ) → Type 0 where
    rest_fails : Rest p none none
    rest_prints :
        (p' : Printing) (text : List ℕ)
        → contents (flush_rest fresh str p') ≡ so_far p ++ text
        → Sound (flush_rest fresh str p')
        → Rest p (some p') (some text)

  flush_rest_lem :
      (p : Printing)
      → p.lstr.length + p.lcpy < 2 ^ 63
      → contents (flush_rest fresh str p) ≡ so_far p
  unfolding flush_rest first
  flush_rest_lem p small = elim (Bool-cases (ltb 0 p.lcpy)) [
    | inl e ↦ rw e (contents-string_append fresh p.lstr (λ k. str (p.lstart + k)) p.lcpy small)
    | inr e ↦
        let none_left : p.lcpy ≡ 0 = ground (arith, e) in rw (e, none_left) (sym (append-nil _))
  ]

  flush_rest-Sound :
      (p : Printing)
      → Sound p.lstr
      → p.lcpy ≤ 64
      → p.lstr.length + p.lcpy < 2 ^ 62
      → Sound (flush_rest fresh str p)
  unfolding flush_rest
  flush_rest-Sound p sound few small = elim (Bool-cases (ltb 0 p.lcpy)) [
    | inl e ↦
        rw e (string_append-Sound fresh p.lstr (λ k. str (p.lstart + k)) p.lcpy sound few small)
    | inr e ↦ rw e sound
  ]

  loop_end :
      (rounds i : ℕ) (p : Printing)
      → org_len ≤ i
      → printk_loop rounds fresh str org_len i p ≡ some p
  unfolding printk_loop
  loop_end zero i p le = refl
  loop_end (suc rounds) i p le = let out : ltb i org_len ≡ false = ground arith in rw out refl

  at_end :
      (p : Printing)
      → Sound p.lstr
      → p.lcpy ≤ 64
      → p.lstr.length + p.lcpy < 2 ^ 62
      → Rest p (some p) (some [])
  at_end p sound few small =
      rest_prints p [] (flush_rest_lem p (omega arith) ∙ sym (append-nil _))
        (flush_rest-Sound p sound few small)

  -- A byte that stands for itself.
  plain_step :
      (p : Printing) (i : ℕ) (r : Option Printing) (e : Option (List ℕ))
      → p.lstart + p.lcpy ≡ i
      → Rest (record p { lcpy = p.lcpy + 1 }) r e
      → Rest p r (prepend (str i ∷ []) e)
  unfolding prepend first
  plain_step p i none none at rest_fails = rest_fails
  plain_step p i _ _ at (rest_prints p' text same sound) =
      rest_prints p' (str i ∷ text)
        (same
          ∙ rw (first-add p.lcpy 1 (λ k. str (p.lstart + k))) (
              rw here (
                ap (λ l. l ++ text)
                  (sym (
                    append_assoc (contents p.lstr) (first p.lcpy (λ k. str (p.lstart + k)))
                      (str i ∷ [])))
                ∙ append_assoc (so_far p) (str i ∷ []) text)))
        sound
    where
      here : p.lstart + (p.lcpy + 0) ≡ i
      here = omega (arith, at)

  -- A conversion.
  converted_step :
      (p p1 : Printing) (text : List ℕ) (r : Option Printing) (e : Option (List ℕ))
      → so_far p1 ≡ so_far p ++ text
      → Rest p1 r e
      → Rest p r (prepend text e)
  unfolding prepend
  converted_step p p1 text none none more rest_fails = rest_fails
  converted_step p p1 text _ _ more (rest_prints p' t same sound) =
      rest_prints p' (text ++ t) (same ∙ rw more (append_assoc (so_far p) text t)) sound

  -- What follows a conversion that was tried on the flushed message.
  after_convert :
      (p q : Printing) (i : ℕ) (loop : Printing → Option Printing)
      (rest : List Arg → Option (List ℕ))
      → q.lcpy ≡ 0
      → q.lstart ≡ i
      → contents q.lstr ≡ so_far p
      → ((p1 : Printing)
          → p1.lcpy ≡ 0
          → p1.lstart ≡ i
          → p1.lstr.length + weight p1.args ≤ q.lstr.length + weight q.args + 1
          → Sound p1.lstr
          → Short p1.args
          → Rest p1 (loop p1) (rest p1.args))
      → (r : Option Printing) (e : Option (List ℕ × List Arg)) → Appends q r e
      → Rest p
          (elim r [ none ↦ none | some p' ↦ loop p' ])
          (elim e [ none ↦ none | some (text, args') ↦ prepend text (rest args') ])
  unfolding first
  after_convert p q i loop rest empty at same more none none both_fail = rest_fails
  after_convert p q i loop rest empty at same more _ _
        (both_append p1 text grown start copied less sound short) =
      let empty' : p1.lcpy ≡ 0 = copied ∙ empty in
      converted_step p p1 text (loop p1) (rest p1.args) (rw (empty', grown, same) (append-nil _))
        (more p1 empty' (start ∙ at) less sound short)

  loop-Rest :
      (rounds n i : ℕ) (p : Printing)
      → n ≤ rounds
      → org_len ≡ i + n
      → p.lstart + p.lcpy ≡ i
      → p.lstr.length + p.lcpy + weight p.args + n < 2 ^ 61
      → org_len ≤ 64
      → Sound p.lstr
      → Short p.args
      → Rest p (printk_loop rounds fresh str org_len i p) (expand fresh (bytes_from str i n) p.args)
  unfolding printk_loop expand bytes_from
  loop-Rest rounds zero i p le len at small few sound short =
      rw (loop_end rounds i p (omega (arith, len)))
        (at_end p sound (omega (arith, at, len)) (omega arith))
  loop-Rest zero (suc n) i p le len at small few sound short = absurd (omega arith)
  loop-Rest (suc rounds) (suc zero) i p le len at small few sound short =
      let inside : ltb i org_len ≡ true = ground (arith, len) in
      let last : (i == org_len - 1) ≡ true = ground (arith, len) in
      elim (Bool-cases (str i == 37)) [
        | inl e ↦
            rw (inside, e, last, loop_end rounds (i + 1) p (omega (arith, len)))
              (at_end p sound (omega (arith, at, len)) (omega arith))
        | inr e ↦
            rw (inside, e)
              (plain_step p i _ (some []) at (
                loop-Rest rounds 0 (i + 1) (record p { lcpy = p.lcpy + 1 }) (omega arith)
                  (omega (arith, len)) (omega (arith, at)) (omega (arith, small)) few sound short))
      ]
  loop-Rest (suc rounds) (suc (suc n)) i p le len at small few sound short =
      let inside : ltb i org_len ≡ true = ground (arith, len) in
      let last : (i == org_len - 1) ≡ false = ground (arith, len) in
      let two : i + 1 + 1 ≡ i + 2 = omega arith in
      let longer : (flush fresh str p).lstr.length ≡ p.lstr.length + p.lcpy =
        (string_append-Joined fresh p.lstr (λ k. str (p.lstart + k)) p.lcpy (omega arith)).longer in
      let sound' =
        string_append-Sound fresh p.lstr (λ k. str (p.lstart + k)) p.lcpy sound
          (omega (arith, at, len)) (omega arith) in
      elim (Bool-cases (str i == 37)) [
        | inl e ↦
            rw (inside, e, last)
              (after_convert p (record (flush fresh str p) { lstart = i + 2 }) (i + 2)
                (λ p'. printk_loop rounds fresh str org_len (i + 2) p')
                (λ args'. expand fresh (bytes_from str (i + 1 + 1) n) args') refl refl
                (contents-string_append fresh p.lstr (λ k. str (p.lstart + k)) p.lcpy (omega arith))
                (λ p1 empty start less sound1 short1. rw two (
                  loop-Rest rounds n (i + 2) p1 (omega arith) (omega (arith, len))
                    (omega (arith, empty, start)) (omega (arith, longer, less, empty)) few sound1
                    short1))
                _ _
                (convert-Appends fresh (record (flush fresh str p) { lstart = i + 2 })
                  (omega (arith, longer)) sound' short (str (i + 1))))
        | inr e ↦
            rw (inside, e)
              (plain_step p i _ _ at (
                loop-Rest rounds (suc n) (i + 1) (record p { lcpy = p.lcpy + 1 }) (omega arith)
                  (omega (arith, len)) (omega (arith, at)) (omega (arith, small)) few sound short))
      ]

-- The bytes of a message, and whether something was written behind its memory.
abbrev pub message_of : Option Str → Option (List ℕ × Bool)
message_of none = none
message_of (some s) = some (contents s, s.overrun)

abbrev pub intact : Option (List ℕ) → Option (List ℕ × Bool)
intact none = none
intact (some text) = some (text, false)

Rest-message :
    (fresh str : ℕ → ℕ) (org_len : ℕ) (p : Printing) (r : Option Printing) (e : Option (List ℕ))
    → contents p.lstr ≡ []
    → p.lcpy ≡ 0
    → Rest fresh str org_len p r e
    → message_of (elim r [ none ↦ none | some p' ↦ some (flush_rest fresh str p') ]) ≡ intact e
unfolding first
Rest-message fresh str org_len p none none start empty rest_fails = refl
Rest-message fresh str org_len p _ _ start empty (rest_prints p' text same sound) =
    ap (λ l. some (l, (flush_rest fresh str p').overrun)) (same ∙ rw (start, empty) refl)
    ∙ ap (λ b. some (text, b)) sound.intact

-- For a format of at most STRING_ALLOC_LENGTH bytes, whose strings have at most that many as well, the
-- message that `printk` makes holds the bytes that the format expands to, each conversion replaced by the
-- text of its argument, and nothing is written behind the memory of the message; or both fail: an
-- argument is missing or of the other kind, or its text does not end. The texts together are shorter
-- than 2 ^ 60.
pub printk_message-expand :
    (fresh str : ℕ → ℕ) (org_len : ℕ) (args : List Arg)
    → org_len ≤ string_alloc_length
    → Short args
    → weight args < 2 ^ 60
    → message_of (printk_message fresh str org_len args)
      ≡ intact (expand fresh (bytes_from str 0 org_len) args)
unfolding printk_message new_string first
printk_message-expand fresh str org_len args few short small =
    Rest-message fresh str org_len start _ _ refl refl (
      loop-Rest fresh str org_len org_len org_len 0 start (omega arith) (omega arith) refl
        (omega arith) few (new_string-Sound fresh) short)
  where
    start : Printing
    start = record { lstr = new_string fresh; args = args; lstart = 0; lcpy = 0 }
