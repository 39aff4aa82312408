-- ===== src/Examples/Loading.antt =====
-- A file of the first release, loaded.
use in_proxy.Common.{◌≡◌, ◌≢◌, refl, true, false, [], ◌∷◌, none, some, ok, inl}
use in_proxy.Common.Dict.{insert}
use in_proxy.Text.{Text, codes, to_lower, ◌==◌, has_prefix, trim_prefix}
use in_proxy.Text.Trim.{trim_space}
use in_proxy.Proxy.{build_proxy, concurrency}
use in_proxy.Store.{Store, written, recompile}
use in_proxy.Store.Compile.{
  compile_sites, compile_routes, compile_route, longest_first, compile_domains,
}
use in_proxy.Store.Match.{covers, match_site}
use in_proxy.Store.Load.{Json, content, migrate_routes, parse_config, new_store}
use in_proxy.Store.Load.Start.{first_release_served}
use in_proxy.Examples.Configs.{parse, wiki, empty_store, wiki_compiled}

-- Every array holds the one route.
abbrev json : Json
json = record { array = λ t. some (wiki ∷ []); object = λ t. none }

abbrev old_file : Text
old_file = codes " [...]"

abbrev loaded : Store
loaded = record empty_store {
  sites = record { host = codes "Old.example.com"; description = []; routes = wiki ∷ [] } ∷ [];
  compiled_sites = (codes "old.example.com", wiki_compiled ∷ []) ∷ [];
  on_forward = false;
  on_dnat = false;
  on_domain = false;
}

old_loaded :
    new_store parse json true (codes "Old.example.com") (content old_file) written ≡ ok loaded
unfolding new_store parse_config migrate_routes recompile compile_sites compile_routes compile_route
    compile_domains build_proxy parse to_lower insert longest_first ◌==◌ concurrency has_prefix
    trim_prefix trim_space
old_loaded = refl

old_array : has_prefix (trim_space old_file) (codes "[") ≡ true
unfolding has_prefix trim_space
old_array = refl

old_covers : covers wiki.prefix (codes "/wiki") ≡ true
unfolding covers ◌==◌
old_covers = refl

first_release_served_example : match_site loaded (codes "Old.example.com") (codes "/wiki") ≢ none
first_release_served_example =
    first_release_served parse json true (codes "Old.example.com") (codes "/wiki") old_file written
      loaded (wiki ∷ []) wiki old_loaded refl old_array refl refl (inl refl) refl old_covers
