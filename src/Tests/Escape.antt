-- ===== src/Tests/Escape.antt =====
-- Escaping and printing on concrete texts.
use home_server_deployer.Prelude.{◌≡◌, refl, [], ◌∷◌}
use home_server_deployer.Text.Escape.{path_escape, encode_values}
use home_server_deployer.Text.{elem}
use home_server_deployer.Strconv.{itoa}

escaped : path_escape "a b/é.container" ≡ "a%20b%2F%C3%A9.container"
unfolding path_escape elem
escaped = refl

encoded :
    encode_values (("reload-systemd", "false") ∷ ("ignore", "a b") ∷ [])
    ≡ "ignore=a+b&reload-systemd=false"
unfolding encode_values elem
encoded = refl

printed : itoa 4096 ≡ "4096"
unfolding itoa
printed = refl
