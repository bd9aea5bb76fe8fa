-- ===== src/Transformer/Prefix.antt =====
-- pkg/transformer/prefix.go: the directory that the paths of a compile lose.
use remindb.Prelude.{List, [], ◌∷◌, ◌++◌, if◌then◌else◌, Bytes, codes, ◌=s◌}
use remindb.Prelude.Text.{has_suffix, trim_prefix, split, join}
use remindb.Prelude.Paths.{clean, dir, slash}
use remindb.Parser.Ast.{ContextNode}

unfoldable compile_root_prefix : Bytes → Bytes
unfolding clean has_suffix
compile_root_prefix compile_root =
    let prefix = clean compile_root in
    if compile_root =s [] then [] else if has_suffix prefix slash then prefix else prefix ++ slash

unfoldable stored_source_file : Bytes → Bytes → Bytes
unfolding compile_root_prefix trim_prefix
stored_source_file path compile_root =
    let prefix = compile_root_prefix compile_root in
    if prefix =s [] then path else trim_prefix path prefix

unfoldable split_path : Bytes → List Bytes
unfolding clean split
split_path p = if clean p =s codes "." then [] else split b'/' (clean p)

unfoldable common_parts : List Bytes → List Bytes → List Bytes
common_parts [] b = []
common_parts (x ∷ a) [] = []
common_parts (x ∷ a) (y ∷ b) = let rest = common_parts a b in if x =s y then x ∷ rest else []

-- The loop of `commonDirPrefix`; its early return leaves no parts either, whose join is empty.
unfoldable common_dirs : List Bytes → List ContextNode → List Bytes
unfolding common_parts split_path dir
common_dirs parts [] = parts
common_dirs parts (n ∷ nodes) =
    common_dirs (common_parts parts (split_path (dir n.source_file))) nodes

unfoldable common_dir_prefix : ContextNode → List ContextNode → Bytes
unfolding common_dirs join split_path dir
common_dir_prefix n nodes =
    let result = join slash (common_dirs (split_path (dir n.source_file)) nodes) in
    if result =s []
    then []
    else if result =s codes "."
    then []
    else if result =s slash
    then []
    else result ++ slash

-- The prefix that `compressPrefix` strips, and none if there is no node.
unfoldable pub prefix_of : List ContextNode → Bytes → Bytes
unfolding compile_root_prefix common_dir_prefix
prefix_of [] compile_root = []
prefix_of (n ∷ nodes) compile_root =
    let prefix = compile_root_prefix compile_root in
    if prefix =s [] then common_dir_prefix n nodes else prefix

-- What `compressPrefix` does to one node.
unfoldable pub strip_prefix : Bytes → ContextNode → ContextNode
unfolding trim_prefix
strip_prefix prefix n =
    if prefix =s [] then n else record n { source_file = trim_prefix n.source_file prefix }
