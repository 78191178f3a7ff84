-- ===== src/Tasks/Payloads/Nonempty.antt =====
-- What a payload always gives: a title, a description, a short preview.
use Prim.Native.Char.{Char}
use reframe_web.Prelude.{
  suc, ◌≤◌, ◌≡◌, ◌≢◌, refl, leb, leb→le, Bool, true, false, ◌&&◌, [], ◌∷◌, ◌++◌, if_ind, length,
  take, is_nil, length-append, length-take, arith,
}
use reframe_web.Tasks.Payloads.{
  Text, literal, is_space, rstrip, lstrip, strip, or_text, Payload, absent, string, mapping, other,
  memory_of_text, memory_payload, first_text, payload_preview, max_action_detail_chars,
}

-- Empty, or led by a character that is no space
abbrev IsTrimmed : Text → Type 0
IsTrimmed [] = Unit {0}
IsTrimmed (c ∷ t) = is_space c ≡ false

lstrip-IsTrimmed : (t : Text) → IsTrimmed (lstrip t)
unfolding lstrip
lstrip-IsTrimmed [] = tt
lstrip-IsTrimmed (c ∷ t) =
    if_ind IsTrimmed (is_space c) (lstrip t) (c ∷ t) (λ _. lstrip-IsTrimmed t) (λ e. e)

both_lem : (a b : Bool) → (a && b) ≡ true → b ≡ false → ⊥
both_lem true b e f = cc (e, f)
both_lem false b e f = cc e

-- Such a character survives a strip.
strip-kept : (c : Char) (t : Text) → is_space c ≡ false → strip (c ∷ t) ≢ []
unfolding rstrip lstrip
strip-kept c t e =
    if_ind (λ r. lstrip r ≢ []) (is_nil (rstrip t) && is_space c) [] (c ∷ rstrip t)
      (λ f. absurd (both_lem (is_nil (rstrip t)) (is_space c) f e))
      (λ _.
        if_ind (λ r. r ≢ []) (is_space c) (lstrip (rstrip t)) (c ∷ rstrip t)
          (λ f. absurd (cc (e, f))) (λ _ f. cc f))

or_text-kept : (t u : Text) → u ≢ [] → or_text t u ≢ []
or_text-kept [] u k = k
or_text-kept (c ∷ t) u k = λ e. cc e

-- Neither part is empty.
abbrev pub IsNamed : Text × Text → Type 0
IsNamed (title, description) = (title ≢ []) × (description ≢ [])

memory_of_text-IsNamed :
    (t default_title : Text)
    → IsTrimmed t
    → default_title ≢ []
    → IsNamed (memory_of_text t default_title)
unfolding memory_of_text
memory_of_text-IsNamed [] default_title trimmed k = (k, k)
memory_of_text-IsNamed (c ∷ t) default_title trimmed k =
    (strip-kept c (take 79 t) trimmed, λ e. cc e)

-- Whatever the payload is, a memory with a default title that is not empty has a title and a
-- description that are not empty.
pub memory_payload-IsNamed :
    (payload : Payload) (default_title : Text)
    → default_title ≢ []
    → IsNamed (memory_payload payload default_title)
unfolding memory_payload
memory_payload-IsNamed absent default_title k = memory_of_text-IsNamed [] default_title tt k
memory_payload-IsNamed (string t) default_title k =
    memory_of_text-IsNamed (strip t) default_title (lstrip-IsTrimmed (rstrip t)) k
memory_payload-IsNamed (mapping payload) default_title k =
    let named = or_text-kept (first_text payload _) default_title k in
    (named, or_text-kept (first_text payload _) _ named)
memory_payload-IsNamed (other truthy t) default_title k =
    memory_of_text-IsNamed (strip t) default_title (lstrip-IsTrimmed (rstrip t)) k

length-rstrip : (t : Text) → length (rstrip t) ≤ length t
unfolding rstrip
length-rstrip [] = omega arith
length-rstrip (c ∷ t) =
    let ih = length-rstrip t in
    if_ind (λ r. length r ≤ suc (length t)) (is_nil (rstrip t) && is_space c) [] (c ∷ rstrip t)
      (λ _. omega arith) (λ _. omega (arith, ih))

dots_lem : length (literal "...") ≡ 3
unfolding literal
dots_lem = refl

-- The preview of a payload, with its dots, has at most the length that is allowed for it.
pub payload_preview-bounded : (t : Text) → length (payload_preview t) ≤ max_action_detail_chars
unfolding payload_preview
payload_preview-bounded t =
    let cut : Text = take 1197 t in
    if_ind (λ r. length r ≤ 1200) (leb (length t) 1200) t (rstrip cut ++ literal "...")
      (leb→le (length t) 1200)
      (λ _.
        let e = length-append (rstrip cut) (literal "...") in
        let b = length-rstrip cut in let l = length-take 1197 t in omega (arith, e, b, l, dots_lem))
