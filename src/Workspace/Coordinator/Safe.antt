-- ===== src/Workspace/Coordinator/Safe.antt =====
-- The outbox of checkpoints and the graph, through every operation of the coordinator.
use reframe_web.Prelude.{
  ℕ, Bool, ◌≡◌, refl, sym, ap, subst, false, none, some, List, [], ◌∷◌, ◌++◌, map, All,
}
use reframe_web.Workspace.Planning.{mem}
use reframe_web.Workspace.Outbox.{
  prune, Pending, Row, CheckpointMemory, manifest_of, find_row, mark, upsert,
}
use reframe_web.Workspace.Outbox.Writes.{
  Holds, IsPublished, Distinct, get_record-upsert, Distinct-snoc, manifests-mark, refl-Kept,
  Kept-mark, Kept-append, IsPublished-mark, larger-IsPublished, IsPublished-append,
}
use reframe_web.Workspace.Outbox.Prunes.{
  Survives, AllSurvive, Kept-AllSurvive, trans-AllSurvive, prune-AllSurvive, IsPublished-prune,
  Distinct-prune,
}
use reframe_web.Workspace.Effects.{World}
use reframe_web.Workspace.Effects.Frames.{Frame}
use reframe_web.Workspace.Plans.{Environment}
use reframe_web.Workspace.Coordinator.{Operation, perform_all}
use reframe_web.Workspace.Coordinator.Respects.{Coordinating, perform_all-Respects}

-- The rows are of distinct manifests, and the graph has each that is marked as published, under its
-- memory id.
pub record IsConsistent (w : World) : Type 0 where
  pub published : All (IsPublished w.graph) w.rows
  pub distinct : Distinct (map manifest_of w.rows)

-- Nothing is lost: from a consistent state each row survives, and each checkpoint of the graph stays.
pub record IsSafe (w w' : World) : Type 0 where
  pub consistent : IsConsistent w → IsConsistent w'
  pub rows_kept : IsConsistent w → AllSurvive w'.graph w.rows w'.rows
  pub graph_kept : (id manifest : ℕ) → Holds w.graph id manifest → Holds w'.graph id manifest

-- A step that leaves the rows and the graph.
still-IsSafe : (w w' : World) → w'.rows ≡ w.rows → w'.graph ≡ w.graph → IsSafe w w'
still-IsSafe w w' e g = record {
  consistent = λ c. record {
    published =
        subst (λ rows. All (IsPublished w'.graph) rows) (sym e)
          (subst (λ graph. All (IsPublished graph) w.rows) (sym g) c.published);
    distinct = subst (λ rows. Distinct (map manifest_of rows)) (sym e) c.distinct;
  };
  rows_kept = λ c.
      subst (AllSurvive w'.graph w.rows) (sym e)
        (Kept-AllSurvive w'.graph w.rows w.rows (refl-Kept w.rows));
  graph_kept = λ id manifest h. subst (λ graph. Holds graph id manifest) (sym g) h;
}

trans-IsSafe : (u v w : World) → IsSafe u v → IsSafe v w → IsSafe u w
trans-IsSafe u v w p q = record {
  consistent = λ c. q.consistent (p.consistent c);
  rows_kept = λ c.
      trans-AllSurvive v.graph w.graph u.rows v.rows w.rows q.graph_kept (p.rows_kept c)
        (q.rows_kept (p.consistent c));
  graph_kept = λ id manifest h. q.graph_kept id manifest (p.graph_kept id manifest h);
}

prune-IsSafe : (w : World) (old : ℕ → Bool) → IsSafe w (record w { rows = prune old w.rows })
prune-IsSafe w old = record {
  consistent = λ c. record {
    published = IsPublished-prune w.graph old w.rows c.published;
    distinct = Distinct-prune old w.rows c.distinct;
  };
  rows_kept = λ c. prune-AllSurvive w.graph old w.rows c.published;
  graph_kept = λ i m x. x;
}

IsSafe-Frame : Frame IsSafe
IsSafe-Frame = record {
  reflexive = λ w. still-IsSafe w w refl refl;
  transitive = trans-IsSafe;
  counts = λ w n. still-IsSafe w (record w { calls = n }) refl refl;
  notes = λ w e. still-IsSafe w (record w { journal = w.journal ++ e ∷ [] }) refl refl;
  prunes = prune-IsSafe;
}

upsert-IsSafe :
    (w : World) (id : ℕ) (memory : CheckpointMemory)
    → IsSafe w (record w { graph = upsert id memory w.graph })
upsert-IsSafe w id memory = record {
  consistent = λ c. record {
    published =
        larger-IsPublished w.graph (upsert id memory w.graph) w.rows
          (get_record-upsert w.graph id memory) c.published;
    distinct = c.distinct;
  };
  rows_kept = λ c. Kept-AllSurvive (upsert id memory w.graph) w.rows w.rows (refl-Kept w.rows);
  graph_kept = get_record-upsert w.graph id memory;
}

mark-IsSafe :
    (w : World) (manifest id : ℕ)
    → Holds w.graph id manifest
    → IsSafe w (record w { rows = mark manifest id w.rows })
mark-IsSafe w manifest id h = record {
  consistent = λ c. record {
    published = IsPublished-mark w.graph w.rows manifest id h c.published;
    distinct = subst Distinct (sym (manifests-mark w.rows manifest id)) c.distinct;
  };
  rows_kept =
      λ c. Kept-AllSurvive w.graph w.rows (mark manifest id w.rows) (Kept-mark w.rows manifest id);
  graph_kept = λ i m x. x;
}

map-snoc :
    (rows : List Row) (row : Row)
    → map manifest_of (rows ++ row ∷ []) ≡ map manifest_of rows ++ manifest_of row ∷ []
map-snoc [] row = refl
map-snoc (r ∷ rows) row = ap (◌∷◌ (manifest_of r)) (map-snoc rows row)

append-IsSafe :
    (w : World) (p : Pending)
    → mem p.manifest_id (map manifest_of w.rows) ≡ false
    → IsSafe w (record w { rows = w.rows ++ record { publication = p; memory_id = none } ∷ [] })
append-IsSafe w p fresh =
    let row : Row = record { publication = p; memory_id = none } in
    record {
      consistent = λ c. record {
        published = IsPublished-append w.graph w.rows (row ∷ []) c.published (tt, tt);
        distinct =
            subst Distinct (sym (map-snoc w.rows row))
              (Distinct-snoc (map manifest_of w.rows) p.manifest_id c.distinct fresh);
      };
      rows_kept =
          λ c. Kept-AllSurvive w.graph w.rows (w.rows ++ row ∷ []) (Kept-append w.rows (row ∷ []));
      graph_kept = λ i m x. x;
    }

IsSafe-Coordinating : Coordinating IsSafe
IsSafe-Coordinating = record {
  publishing = record {
    frame = IsSafe-Frame;
    upserts = upsert-IsSafe;
    lists = λ w ds. still-IsSafe w (record w { directories = ds }) refl refl;
    marks = mark-IsSafe;
  };
  appends = append-IsSafe;
}

perform_all-IsSafe :
    (env : Environment) (operations : List Operation) (w : World)
    → IsSafe w (perform_all env operations w)
perform_all-IsSafe = perform_all-Respects IsSafe-Coordinating

-- Where the rows of the outbox are of distinct manifests and the graph has each that is marked as
-- published, under its memory id, the same holds after any operations of the coordinator, whichever
-- of their calls raise, before or after their effect, and whatever the daemon prunes when it is
-- started. And no checkpoint is lost: a row of the outbox is still there, with its publication, and
-- with its memory id if it had one; or else the graph has its manifest, under that memory id if it had
-- one.
pub perform_all-IsConsistent :
    (env : Environment) (operations : List Operation) (w : World) (manifest : ℕ) (row : Row)
    → IsConsistent w
    → find_row manifest w.rows ≡ some row
    → IsConsistent (perform_all env operations w)
      × Survives
          (perform_all env operations w).graph
          (perform_all env operations w).rows
          manifest
          row
perform_all-IsConsistent env operations w manifest row c found =
    let safe = perform_all-IsSafe env operations w in
    (safe.consistent c, safe.rows_kept c manifest row found)
