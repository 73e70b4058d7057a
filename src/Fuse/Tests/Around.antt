-- ===== src/Fuse/Tests/Around.antt =====
-- What stands around the service in memory: requests that change it, no local disk and no workspace.
use ti_cli.Common.{
  ℕ, ◌+◌, true, false, ◌∷◌, Option, none, some, List, if◌then◌else◌, ◌≡◌, sym, ap, ◌∙◌, arith,
  Option-cases, inl, inr, [], refl,
}
use ti_cli.Common.Text.{Text, codes, eqb, eqb_refl}
use ti_cli.Common.Result.{ok, err}
use ti_cli.Fuse.Errors.{FsError, not_exist}
use ti_cli.Fuse.Nodes.{Surroundings}
use ti_cli.Fuse.Nodes.Follows.{MovesFiles}
use ti_cli.Fuse.Tests.Service.{Memory, memory}

-- The file's bytes under the new path, and none under the old.
unfoldable pub moved : Memory → Text → Text → List ℕ → Memory
moved m source target bytes = record {
  files = λ q. if eqb target q then some bytes else if eqb source q then none else m.files q;
  revision = m.revision + 1;
}

unfoldable pub rename_in : Memory → Text → Text → Memory × Option FsError
unfolding moved
rename_in m source target = elim (m.files source) [
  | none ↦ (m, some not_exist)
  | some bytes ↦ (moved m source target bytes, none)
]

unfoldable pub delete_in : Memory → Text → Memory × Option FsError
delete_in m p = elim (m.files p) [
  | none ↦ (m, some not_exist)
  | some bytes ↦
      (record { files = λ q. if eqb p q then none else m.files q; revision = m.revision + 1 }, none)
]

abbrev pub around : Surroundings memory
around = record {
  is_dir = λ m p. false;
  list_dir = λ m p. ok ((codes "a", false) ∷ (codes "b", true) ∷ []);
  delete_file = delete_in;
  rename_file = rename_in;
  make_dir = λ m p mode. (m, none);
  symlink_file = λ m target p. (m, none);
  hardlink_file = λ m source p. (m, none);
  chmod_file = λ m p mode. (m, none);
  Local = Unit {0};
  local_kind = λ l p. none;
  local_read_dir = λ l p. ok [];
  local_read_link = λ l p. err not_exist;
  local_remove = λ l p. (l, none);
  local_mkdir_all = λ l p. (l, none);
  local_rename = λ l source target. (l, none);
  local_open = λ l p. (l, none);
  local_truncate = λ l p size. (l, none);
  local_chmod = λ l p mode. (l, none);
  local_create = λ l p mode. (l, none);
  local_mkdir = λ l p mode. (l, none);
  local_symlink = λ l target p. (l, none);
  local_link = λ l source p. (l, none);
  Git = Unit {0};
  git_entry = λ g p. (g, ok none);
  git_parent_entry = λ g p. (g, ok none);
  git_read_file = λ g it. (g, ok []);
  git_readdir = λ g p. (g, ok []);
  git_put_entry = λ g it p kind mode bytes. (g, none);
  git_put_directory = λ g it p. (g, none);
  git_whiteout = λ g it p. (g, none);
}

moved_there :
    (m : Memory) (source target : Text) (bytes : List ℕ)
    → (moved m source target bytes).files target ≡ some bytes
unfolding moved
moved_there m source target bytes = rw (eqb_refl target) refl

rename_in_moves :
    (m m' : Memory) (source target : Text)
    → rename_in m source target ≡ (m', none)
    → m'.files target ≡ m.files source
unfolding rename_in
rename_in_moves m m' source target h = elim (Option-cases (m.files source)) [
  | inl e ↦ absurd (ground arith)
  | inr (bytes, e) ↦
      let same : m' ≡ moved m source target bytes = ground arith in
      ap (λ (k : Memory). k.files target) same ∙ moved_there m source target bytes ∙ sym e
]

pub around-MovesFiles : MovesFiles memory around
around-MovesFiles = record { moves = rename_in_moves }
