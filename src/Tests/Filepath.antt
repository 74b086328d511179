-- ===== src/Tests/Filepath.antt =====
-- filepath.Clean and filepath.Base on paths whose results the Go documentation fixes.
use home_server_deployer.Prelude.{◌≡◌, refl}
use home_server_deployer.Paths.Filepath.{clean, base}

clean_dots : clean "a/../b//c/./d/" ≡ "b/c/d"
unfolding clean
clean_dots = refl

clean_above_root : clean "/../x/../.." ≡ "/"
unfolding clean
clean_above_root = refl

clean_leading_dots : clean "../a/../../b" ≡ "../../b"
unfolding clean
clean_leading_dots = refl

base_trailing : base "/a/b//" ≡ "b"
unfolding base
base_trailing = refl

base_slashes : base "//" ≡ "/"
unfolding base
base_slashes = refl
