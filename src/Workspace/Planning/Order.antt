-- ===== src/Workspace/Planning/Order.antt =====
-- The order of the sources, and the end of the recursion.
use reframe_web.Prelude.{
  ℕ, zero, suc, ◌+◌, ◌<◌, ◌≡◌, refl, ap, sym, ◌∙◌, subst, Bool, true, false, Option, none, some,
  List, [], ◌∷◌, ◌++◌, map, ◌==◌, ==_refl, length, All, arith,
}
use reframe_web.Workspace.Planning.{
  Locator, directory, checkpoint, unsupported, Memory, Source, directory_source, checkpoint_source,
  memory_id, missing, dependency_cycle, Result, ok, err, out_of_fuel, mem, remove, dedup_after,
  Progress, append_source, finish, resolve_each, resolve, resolve_memory_sources,
}
use reframe_web.Workspace.Planning.Sets.{
  mem-snoc, or_false, or_true, mem_head, mem_tail, mem_other, remove_head, count, count-lt,
  dedup_lem, all_lem, map-snoc,
}

module _ {Directory Manifest : Type 0} (get : ℕ → Option (Memory Directory Manifest))
    (is_dir : Directory → Bool) where
  -- Every id stands once, and behind all its bases.
  pub data IsOrdered : List ℕ → Type 0 where
    nothing_yet : IsOrdered []
    behind :
        {ids : List ℕ} (id : ℕ) (memory : Memory Directory Manifest)
        → IsOrdered ids
        → get id ≡ some memory
        → All (λ base. mem base ids ≡ true) memory.base_memory_ids
        → mem id ids ≡ false
        → IsOrdered (ids ++ id ∷ [])

  record IsResolved (s : Progress Directory Manifest) : Type 0 where
    ordered : IsOrdered s.resolved
    aligned : map memory_id s.sources ≡ s.resolved

  record Grows (s t : Progress Directory Manifest) : Type 0 where
    same : t.resolving ≡ s.resolving
    kept : (x : ℕ) → mem x s.resolved ≡ true → mem x t.resolved ≡ true
    fresh : (x : ℕ) → mem x s.resolving ≡ true → mem x t.resolved ≡ mem x s.resolved

  -- A result with some ids resolved; not one for want of fuel.
  Resolves : Progress Directory Manifest → List ℕ → Result (Progress Directory Manifest) → Type 0
  Resolves s ids (ok t) = IsResolved t × Grows s t × All (λ id. mem id t.resolved ≡ true) ids
  Resolves s ids (err e) = Unit {0}
  Resolves s ids out_of_fuel = ⊥

  Grows-refl : (s : Progress Directory Manifest) → Grows s s
  Grows-refl s = record { same = refl; kept = λ x h. h; fresh = λ x h. refl }

  appended_lem :
      (id : ℕ) (memory : Memory Directory Manifest) (available : Bool)
      (source : Source Directory Manifest) (s t : Progress Directory Manifest)
      → memory_id source ≡ id
      → get id ≡ some memory
      → mem id s.resolved ≡ false
      → mem id s.resolving ≡ false
      → Resolves (record s { resolving = id ∷ s.resolving }) memory.base_memory_ids (ok t)
      → Resolves s (id ∷ []) (append_source get is_dir id available source t)
  unfolding append_source Resolves
  appended_lem id memory false source s t named found new idle r = tt
  appended_lem id memory true source s t named found new idle (v, g, bases) =
      let not_there : mem id t.resolved ≡ false = g.fresh id (mem_head id s.resolving) ∙ new in
      (
        record {
          ordered = behind id memory v.ordered found bases not_there;
          aligned = map-snoc t.sources source ∙ cc (v.aligned, named);
        },
        record {
          same = ap (remove id) g.same ∙ remove_head id s.resolving;
          kept = λ x h. cc (mem-snoc x id t.resolved, g.kept x h);
          fresh = λ x h. cc (
            mem-snoc x id t.resolved,
            g.fresh x (mem_tail x id s.resolving h),
            mem_other x id s.resolving h idle,
            or_false (mem x t.resolved),
          );
        },
        (mem-snoc id id t.resolved ∙ or_true (mem id t.resolved) (id == id) (==_refl id), tt),
      )

  joined_lem :
      (id : ℕ) (ids : List ℕ) (s t : Progress Directory Manifest)
      (r : Result (Progress Directory Manifest))
      → Grows s t
      → mem id t.resolved ≡ true
      → Resolves t ids r
      → Resolves s (id ∷ ids) r
  unfolding Resolves
  joined_lem id ids s t (ok u) g there (v, h, all) = (
    v,
    record {
      same = h.same ∙ g.same;
      kept = λ x e. h.kept x (g.kept x e);
      fresh = λ x e. h.fresh x (subst (λ l. mem x l ≡ true) (sym g.same) e) ∙ g.fresh x e;
    },
    (h.kept id there, all),
  )
  joined_lem id ids s t (err e) g there r = tt
  joined_lem id ids s t out_of_fuel g there r = r

  finish_lem :
      (id : ℕ) (memory : Memory Directory Manifest) (locator : Locator Directory Manifest)
      (s : Progress Directory Manifest) (r : Result (Progress Directory Manifest))
      → get id ≡ some memory
      → mem id s.resolved ≡ false
      → mem id s.resolving ≡ false
      → Resolves (record s { resolving = id ∷ s.resolving }) memory.base_memory_ids r
      → Resolves s (id ∷ []) (finish get is_dir id locator r)
  unfolding finish Resolves
  finish_lem id memory (directory path) s (ok t) found new idle r =
      appended_lem id memory (is_dir path) (directory_source id path) s t refl found new idle r
  finish_lem id memory (checkpoint path manifest) s (ok t) found new idle r =
      appended_lem id memory (is_dir path) (checkpoint_source id path manifest) s t refl found new
        idle r
  finish_lem id memory unsupported s (ok t) found new idle r = tt
  finish_lem id memory locator s (err e) found new idle r = tt
  finish_lem id memory locator s out_of_fuel found new idle r = r

  -- What resolves one id resolves several, one after the other.
  next_lem :
      (resolve_one : ℕ → Progress Directory Manifest → Result (Progress Directory Manifest))
      (id : ℕ) (ids : List ℕ) (s : Progress Directory Manifest)
      (r : Result (Progress Directory Manifest))
      → ((t : Progress Directory Manifest)
          → IsResolved t
          → t.resolving ≡ s.resolving
          → Resolves t ids (resolve_each get is_dir resolve_one ids t))
      → Resolves s (id ∷ []) r
      → Resolves s (id ∷ ids) (elim r [
        | ok t ↦ resolve_each get is_dir resolve_one ids t
        | err e ↦ err e
        | out_of_fuel ↦ out_of_fuel
      ])
  unfolding Resolves
  next_lem resolve_one id ids s (ok t) rest (v, g, (there, _)) =
      joined_lem id ids s t _ g there (rest t v g.same)
  next_lem resolve_one id ids s (err e) rest r = tt
  next_lem resolve_one id ids s out_of_fuel rest r = r

  each_lem :
      (us : List ℕ) (fuel : ℕ)
      (resolve_one : ℕ → Progress Directory Manifest → Result (Progress Directory Manifest))
      (ids : List ℕ) (s : Progress Directory Manifest)
      → ((id : ℕ) (t : Progress Directory Manifest)
          → count us t.resolving < fuel
          → IsResolved t
          → Resolves t (id ∷ []) (resolve_one id t))
      → count us s.resolving < fuel
      → IsResolved s
      → Resolves s ids (resolve_each get is_dir resolve_one ids s)
  unfolding resolve_each Resolves
  each_lem us fuel resolve_one [] s one enough v = (v, Grows-refl s, tt)
  each_lem us fuel resolve_one (id ∷ ids) s one enough v =
      next_lem resolve_one id ids s (resolve_one id s)
        (λ t w same.
          each_lem us fuel resolve_one ids t one (subst (λ x. count us x < fuel) (sym same) enough)
            w)
        (one id s enough v)

  cases_lem :
      (fuel id : ℕ) (s : Progress Directory Manifest) (a b : Bool)
      (found : Option (Memory Directory Manifest))
      → mem id s.resolved ≡ a
      → mem id s.resolving ≡ b
      → get id ≡ found
      → IsResolved s
      → ((memory : Memory Directory Manifest)
          → get id ≡ some memory
          → mem id s.resolving ≡ false
          → Resolves
              (record s { resolving = id ∷ s.resolving })
              memory.base_memory_ids
              (resolve_each get is_dir
                (resolve get is_dir fuel)
                memory.base_memory_ids
                (record s { resolving = id ∷ s.resolving })))
      → Resolves s (id ∷ []) (elim a [
        | true ↦ ok s
        | false ↦ elim b [
          | true ↦ err (dependency_cycle id)
          | false ↦ elim found [
            | none ↦ err (missing id)
            | some memory ↦ finish get is_dir id memory.locator (
                resolve_each get is_dir
                  (resolve get is_dir fuel)
                  memory.base_memory_ids
                  (record s { resolving = id ∷ s.resolving }))
          ]
        ]
      ])
  unfolding Resolves
  cases_lem fuel id s true b found e f g v bases = (v, Grows-refl s, (e, tt))
  cases_lem fuel id s false true found e f g v bases = tt
  cases_lem fuel id s false false none e f g v bases = tt
  cases_lem fuel id s false false (some memory) e f g v bases =
      finish_lem id memory memory.locator s _ g e f (bases memory g f)

  resolve_lem :
      (us : List ℕ)
      → ((id : ℕ) (memory : Memory Directory Manifest) → get id ≡ some memory → mem id us ≡ true)
      → (fuel id : ℕ) (s : Progress Directory Manifest) → count us s.resolving < fuel
      → IsResolved s
      → Resolves s (id ∷ []) (resolve get is_dir fuel id s)
  unfolding resolve
  resolve_lem us catalog zero id s enough v = absurd (omega arith)
  resolve_lem us catalog (suc fuel) id s enough v =
      cases_lem fuel id s (mem id s.resolved) (mem id s.resolving) (get id) refl refl refl v
        λ memory found idle.
          each_lem us fuel (resolve get is_dir fuel) memory.base_memory_ids
            (record s { resolving = id ∷ s.resolving }) (resolve_lem us catalog fuel)
            (omega (arith, enough, count-lt us id s.resolving (catalog id memory found) idle))
            (record { ordered = v.ordered; aligned = v.aligned })

  count-length : (us : List ℕ) → count us [] ≡ length us
  unfolding count
  count-length [] = refl
  count-length (u ∷ us) = ap suc (count-length us)

  -- What comes of the ids of a plan: an order of sources, or an error, but never a recursion that
  -- does not end.
  abbrev pub IsPlanned : List ℕ → Result (Progress Directory Manifest) → Type 0
  IsPlanned ids (ok t) =
      IsOrdered (map memory_id t.sources) × All (λ id. mem id (map memory_id t.sources) ≡ true) ids
  IsPlanned ids (err e) = Unit {0}
  IsPlanned ids out_of_fuel = ⊥

  planned_lem :
      (ids memory_ids : List ℕ) (s : Progress Directory Manifest)
      (r : Result (Progress Directory Manifest))
      → ((x : ℕ) → mem x memory_ids ≡ true → mem x ids ≡ true)
      → Resolves s ids r
      → IsPlanned memory_ids r
  unfolding Resolves
  planned_lem ids memory_ids s (ok t) covers (v, g, all) = (
    subst IsOrdered (sym v.aligned) v.ordered,
    subst (λ l. All (λ id. mem id l ≡ true) memory_ids) (sym v.aligned)
        (all_lem t.resolved ids memory_ids covers all),
  )
  planned_lem ids memory_ids s (err e) covers r = tt
  planned_lem ids memory_ids s out_of_fuel covers r = r

  -- For a database whose memories are among the ids `us`, with fuel for one more than these: the
  -- recursion ends, and if it succeeds, each source stands once and behind the sources of all its
  -- bases, and every memory of the plan has its source.
  pub resolve_memory_sources_ordered :
      (us memory_ids : List ℕ)
      → ((id : ℕ) (memory : Memory Directory Manifest) → get id ≡ some memory → mem id us ≡ true)
      → IsPlanned memory_ids (resolve_memory_sources get is_dir (length us + 1) memory_ids)
  unfolding resolve_memory_sources
  resolve_memory_sources_ordered us memory_ids catalog =
      let start : Progress Directory Manifest = record {
        sources = [];
        resolving = [];
        resolved = [];
      } in
      planned_lem (dedup_after [] memory_ids) memory_ids start _
        (λ x h. dedup_lem x [] memory_ids h refl)
        (each_lem us (length us + 1) (resolve get is_dir (length us + 1))
          (dedup_after [] memory_ids) start (resolve_lem us catalog (length us + 1))
          (omega (arith, count-length us)) (record { ordered = nothing_yet; aligned = refl }))
