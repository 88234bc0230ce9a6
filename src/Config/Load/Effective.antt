-- ===== src/Config/Load/Effective.antt =====
-- The value that the process runs with, and its source.
use nodejs_basics.Prelude.{String, true, Option, List, [], ◌≡◌, lookup, string_key}
use nodejs_basics.Prelude.Texts.{Text}
use nodejs_basics.Config.Load.{
  Yaml, Entry, from_env, is_registered, drop_empty_values, record_env_sources, apply_structured,
  apply_flat, merge, fields_of,
}
use nodejs_basics.Config.Load.Precedence.{
  known, ◌or◌, Tracks, structured_of, flat_of, default_of, apply_structured-Tracks,
  apply_flat-Tracks, apply_defaults-Tracks,
}
use nodejs_basics.Config.Load.Start.{not_empty, started-Tracks}

-- After the merge a registered key has the value, and is recorded with the source, of the first of
-- these that has one: the environment, unless it is empty there; the structured path of the file, a
-- flat key of the file, unless these are null or print as nothing; the default of the app or else that
-- of the registry. A key that none of them has stays unset, without a source.
pub merge-Tracks :
    (stringify : Yaml → Text) (registry : List Entry) (own : List (String × Text))
    (parsed : Option Yaml) (env : List (String × Text)) (k : String)
    → is_registered stringify registry k ≡ true
    → Tracks (merge stringify registry own parsed env) k (
        ((known from_env (not_empty (lookup k env))
            or structured_of stringify (fields_of parsed) registry k)
          or flat_of stringify registry (fields_of parsed) k)
        or default_of stringify own registry k)
unfolding merge
merge-Tracks stringify registry own parsed env k h =
    let file = fields_of parsed in
    let start =
      record_env_sources stringify registry
        (drop_empty_values stringify registry (record { env = env; sources = [] })) in
    let r = known from_env (not_empty (lookup k env)) in
    let s = structured_of stringify file registry k in
    let f = flat_of stringify registry file k in
    let structured = apply_structured stringify file registry start in
    apply_defaults-Tracks stringify own registry k (apply_flat stringify registry file structured)
      ((r or s) or f)
      (apply_flat-Tracks stringify registry file k structured (r or s) (
        apply_structured-Tracks stringify file registry k start r
          (started-Tracks stringify registry env k h)))
