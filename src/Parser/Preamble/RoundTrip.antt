-- ===== src/Parser/Preamble/RoundTrip.antt =====
-- Front matter that is written out is read back.
use remindb.Prelude.{
  ◌≡◌, refl, ◌∙◌, ◌≢◌, inl, inr, true, false, ◌∷◌, ◌++◌, append_assoc, arith, Bytes,
}
use remindb.Prelude.Text.{has_prefix, contains_text}
use remindb.Parser.Preamble.{
  PreambleKind, preamble_none, preamble_yaml, preamble_toml, lf, crlf, yaml_delim, toml_delim,
  has_delim_line, close_preamble, split_found, split_at_delim, split_preamble,
}
use remindb.Parser.Preamble.Parts.{
  Newline, after_open-append, with_preamble, split_preamble-yaml, split_preamble-toml,
}
use remindb.Parser.Preamble.Cuts.{OneLine, has_prefix-append, delim_of, cut-append}

close_preamble-Newline :
    (text front close body : Bytes) (kind : PreambleKind)
    → Newline close
    → close_preamble text front (close ++ body) kind ≡ (front, body, kind)
unfolding close_preamble
close_preamble-Newline text front close body kind (inl e) = rw e
close_preamble-Newline text front close body kind (inr e) = rw e

split_at_delim-frame :
    (delim opens front close body : Bytes) (kind : PreambleKind)
    → OneLine delim
    → Newline opens
    → Newline close
    → contains_text front (10 ∷ delim) ≡ false
    → split_at_delim (delim ++ (opens ++ (front ++ 10 ∷ (delim ++ (close ++ body))))) delim kind
      ≡ (front, body, kind)
unfolding split_at_delim split_found
split_at_delim-frame delim opens front close body kind plain n c free =
    rw (after_open-append delim opens (front ++ 10 ∷ (delim ++ (close ++ body))) n) (
      rw (cut-append front delim (close ++ body) plain free)
        (close_preamble-Newline _ front close body kind c))

has_delim_line-open :
    (delim opens rest : Bytes)
    → Newline opens
    → has_delim_line (delim ++ (opens ++ rest)) delim ≡ true
unfolding has_delim_line
has_delim_line-open delim opens rest (inl e) =
    let found : has_prefix (delim ++ (lf ++ rest)) (delim ++ lf) ≡ true =
      rw (← append_assoc delim lf rest) (has_prefix-append (delim ++ lf) rest) in
    rw e (ground (arith, found))
has_delim_line-open delim opens rest (inr e) =
    let found : has_prefix (delim ++ (crlf ++ rest)) (delim ++ crlf) ≡ true =
      rw (← append_assoc delim crlf rest) (has_prefix-append (delim ++ crlf) rest) in
    rw e (ground (arith, found))

-- Front matter that is written out is read back: `splitPreamble` of a file with YAML or TOML front
-- matter gives that front matter, the body and the kind, where no line of the front matter behind
-- its first one starts with the delimiter. Both delimiter lines may end in LF or CRLF.
pub split_preamble-with_preamble :
    (kind : PreambleKind) (opens front close body : Bytes)
    → kind ≢ preamble_none
    → Newline opens
    → Newline close
    → contains_text front (10 ∷ delim_of kind) ≡ false
    → split_preamble (with_preamble kind opens front close body) ≡ (front, body, kind)
unfolding has_delim_line
split_preamble-with_preamble preamble_none opens front close body ne n c free = absurd (ne refl)
split_preamble-with_preamble preamble_yaml opens front close body ne n c free =
    split_preamble-yaml _ (has_delim_line-open yaml_delim opens _ n)
    ∙ split_at_delim-frame yaml_delim opens front close body preamble_yaml (omega arith) n c free
split_preamble-with_preamble preamble_toml opens front close body ne n c free =
    split_preamble-toml _ refl (has_delim_line-open toml_delim opens _ n)
    ∙ split_at_delim-frame toml_delim opens front close body preamble_toml (omega arith) n c free
