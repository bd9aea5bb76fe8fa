-- ===== src/Parser/Examples.antt =====
-- pkg/parser/preamble.go at small files.
use remindb.Prelude.{◌≡◌, refl, inl, inr, [], ◌++◌, codes}
use remindb.Prelude.Text.{contains_text, cut}
use remindb.Parser.Preamble.{
  preamble_none, preamble_toml, lf, crlf, split_preamble, split_at_delim, has_delim_line,
}
use remindb.Parser.Preamble.Parts.{with_preamble, Parts, split_preamble-Parts}
use remindb.Parser.Preamble.RoundTrip.{split_preamble-with_preamble}

split_preamble-with_preamble_example :
    split_preamble (with_preamble preamble_toml crlf (codes "k = 1") lf (codes "# T"))
    ≡ (codes "k = 1", codes "# T", preamble_toml)
unfolding contains_text
split_preamble-with_preamble_example =
    split_preamble-with_preamble preamble_toml crlf (codes "k = 1") lf (codes "# T") (cc) (inr refl)
      (inl refl) refl

split_preamble-Parts_example : Parts (codes "# T") (split_preamble (codes "# T"))
split_preamble-Parts_example = split_preamble-Parts (codes "# T")

-- A delimiter line right behind the first one closes nothing.
empty_front :
    split_preamble (codes "---" ++ lf ++ codes "---" ++ lf ++ codes "x")
    ≡ ([], codes "---" ++ lf ++ codes "---" ++ lf ++ codes "x", preamble_none)
unfolding split_preamble split_at_delim has_delim_line cut
empty_front = refl
