-- ===== src/Workbench/Sandbox.antt =====
-- The options that a container of a session is started with.
use computecloud_node.Prelude.{
  ℕ, String, ◌<>◌, ◌≡◌, refl, ap, Bool, true, false, inl, inr, List, [], ◌∷◌, ◌++◌, all, any, ◌||◌,
  ◌&&◌, str_eq, Bool-cases, if◌then◌else◌, all-append,
}
use computecloud_node.Python.{Result, ok, raise, ◌>>=◌, Value, int, str, Fields, truthy, to_int}
use computecloud_node.Python.Dict.{get, get_or}
use computecloud_node.Prelude.Int.{pos}
use computecloud_node.Python.Runtime.{Runtime, to_str}
use computecloud_node.Workbench.{get_of}
use computecloud_node.Workbench.Command.{
  is_ssh, add_hosts, known_mining_pool_domains, ssh_security_args, pool_args, base_url_of, limits,
  docker_options,
}

-- Flags whose value the session may set: a port, limits of memory and processors, the environment
-- and names of hosts.
abbrev pub is_open_flag : String → Bool
is_open_flag flag = any (str_eq flag) ("-p" ∷ "--memory" ∷ "--cpus" ∷ "-e" ∷ "--add-host" ∷ [])

-- The capabilities that a session over SSH adds.
abbrev pub ssh_capabilities : List String
ssh_capabilities =
    "SETUID" ∷ "SETGID" ∷ "SYS_CHROOT" ∷ "DAC_OVERRIDE" ∷ "CHOWN" ∷ "FOWNER" ∷ "KILL"
    ∷ "NET_BIND_SERVICE" ∷ []

-- Flags with the values that they may have, by whether the session is over SSH.
abbrev pub is_fixed : Bool → String → String → Bool
is_fixed over_ssh flag value =
    (str_eq flag "--pids-limit" && str_eq value "512")
    || (str_eq flag "--ulimit" && str_eq value "nofile=4096:8192")
    || (str_eq flag "--tmpfs" && str_eq value "/tmp:rw,size=256m")
    || (str_eq flag "--cap-drop" && str_eq value "ALL")
    || (if over_ssh
        then str_eq flag "--cap-add" && any (str_eq value) ssh_capabilities
        else str_eq flag "--security-opt" && str_eq value "no-new-privileges")

abbrev pub is_permitted : Bool → String × String → Bool
is_permitted over_ssh (flag, value) = is_open_flag flag || is_fixed over_ssh flag value

abbrev pub is_same_option : String → String → String × String → Bool
is_same_option flag value (flag', value') = str_eq flag flag' && str_eq value value'

-- The words of options with their values.
abbrev pub words_of : List (String × String) → List String
words_of [] = []
words_of ((flag, value) ∷ pairs) = flag ∷ value ∷ words_of pairs

words_of-append :
    (xs ys : List (String × String)) → words_of (xs ++ ys) ≡ words_of xs ++ words_of ys
words_of-append [] ys = refl
words_of-append ((flag, value) ∷ xs) ys = ap (λ words. flag ∷ value ∷ words) (words_of-append xs ys)

-- What the options say of privileges beside dropping every capability: a session over SSH adds its
-- eight, any other may gain none.
abbrev pub has_privileges : Bool → List (String × String) → Bool
has_privileges true pairs = all (λ cap. any (is_same_option "--cap-add" cap) pairs) ssh_capabilities
has_privileges false pairs = any (is_same_option "--security-opt" "no-new-privileges") pairs

-- Options that drop every capability and bound the number of processes, and of which each is
-- permitted.
pub record IsSandboxed (over_ssh : Bool) (options : List String) : Type 0 where
  pub pairs : List (String × String)
  pub words : options ≡ "-d" ∷ words_of pairs
  pub permitted : all (is_permitted over_ssh) pairs ≡ true
  pub drops : any (is_same_option "--cap-drop" "ALL") pairs ≡ true
  pub bounds : any (is_same_option "--pids-limit" "512") pairs ≡ true
  pub privileges : has_privileges over_ssh pairs ≡ true

-- A part of the options that is permitted.
record IsPart (over_ssh : Bool) (options : List String) : Type 0 where
  pairs : List (String × String)
  words : options ≡ words_of pairs
  permitted : all (is_permitted over_ssh) pairs ≡ true

add_hosts-IsPart : (over_ssh : Bool) (domains : List String) → IsPart over_ssh (add_hosts domains)
unfolding add_hosts
add_hosts-IsPart over_ssh [] = record { pairs = []; words = refl; permitted = refl }
add_hosts-IsPart over_ssh (domain ∷ domains) =
    let part = add_hosts-IsPart over_ssh domains in
    record {
      pairs = ("--add-host", domain <> ":127.0.0.1") ∷ part.pairs;
      words = ap (λ words. "--add-host" ∷ (domain <> ":127.0.0.1") ∷ words) part.words;
      permitted = part.permitted;
    }

append-IsPart :
    {over_ssh : Bool} {xs ys : List String}
    → IsPart over_ssh xs
    → IsPart over_ssh ys
    → IsPart over_ssh (xs ++ ys)
append-IsPart {over_ssh} {xs} {ys} first second = record {
  pairs = first.pairs ++ second.pairs;
  words = rw (first.words, second.words, words_of-append first.pairs second.pairs) refl;
  permitted =
      rw (all-append (is_permitted over_ssh) first.pairs second.pairs, first.permitted)
        second.permitted;
}

-- What holds of the value of a call, if it returns.
abbrev Yields {ℓ} : {A : Type ℓ} → (A → Type 0) → Result A → Type 0
Yields holds (ok a) = holds a
Yields holds (raise exc) = Unit

then_Yields :
    {A : Type 0} (first : A → Type 0) (holds : List String → Type 0) (m : Result A)
    (next : A → Result (List String))
    → Yields first m
    → ((a : A) → first a → Yields holds (next a))
    → Yields holds (m >>= next)
then_Yields first holds (ok a) next got each = each a got
then_Yields first holds (raise exc) next got each = tt

any_Yields : {A : Type 0} (m : Result A) → Yields (λ a. Unit) m
any_Yields (ok a) = tt
any_Yields (raise exc) = tt

pool_args-IsPart :
    (over_ssh : Bool) (rt : Runtime) (base_url : String) (pool_env : Value)
    → Yields (IsPart over_ssh) (pool_args rt base_url pool_env)
unfolding pool_args
pool_args-IsPart over_ssh rt base_url pool_env = elim (Bool-cases (truthy pool_env)) [
  | inr absent ↦ rw absent (record { pairs = []; words = refl; permitted = refl })
  | inl present ↦ rw present (
      then_Yields _ (IsPart over_ssh) (get_of pool_env "POOL_TOKEN" (str "")) _ (any_Yields _)
        (λ token got.
          then_Yields _ (IsPart over_ssh) (get_of pool_env "POOL_WORKSPACE_ID" (str "")) _
            (any_Yields _)
            (λ workspace got'. record {
              pairs =
                  ("-e", "POOL_API_URL=" <> base_url)
                  ∷ ("-e", "POOL_TOKEN=" <> to_str rt token)
                  ∷ ("-e", "POOL_WORKSPACE_ID=" <> to_str rt workspace)
                  ∷ [];
              words = refl;
              permitted = refl;
            })))
]

abbrev security_pairs : Bool → List (String × String)
security_pairs true =
    ("--cap-drop", "ALL")
    ∷ ("--cap-add", "SETUID")
    ∷ ("--cap-add", "SETGID")
    ∷ ("--cap-add", "SYS_CHROOT")
    ∷ ("--cap-add", "DAC_OVERRIDE")
    ∷ ("--cap-add", "CHOWN")
    ∷ ("--cap-add", "FOWNER")
    ∷ ("--cap-add", "KILL")
    ∷ ("--cap-add", "NET_BIND_SERVICE")
    ∷ ("-e", "PASSWORD_ACCESS=true")
    ∷ ("-e", "USER_PASSWORD=poolpass")
    ∷ ("-e", "USER_NAME=pool")
    ∷ ("-e", "PUID=0")
    ∷ ("-e", "PGID=0")
    ∷ []
security_pairs false = ("--security-opt", "no-new-privileges") ∷ ("--cap-drop", "ALL") ∷ []

abbrev security_words : Bool → List String
security_words over_ssh =
    if over_ssh
    then ssh_security_args
    else "--security-opt" ∷ "no-new-privileges" ∷ "--cap-drop" ∷ "ALL" ∷ []

abbrev limit_pairs : String → String → String → List (String × String)
limit_pairs port memory cpus =
    ("-p", port)
    ∷ ("--memory", memory)
    ∷ ("--cpus", cpus)
    ∷ ("--pids-limit", "512")
    ∷ ("--ulimit", "nofile=4096:8192")
    ∷ ("--tmpfs", "/tmp:rw,size=256m")
    ∷ []

whole-IsSandboxed :
    (port memory cpus : String) (over_ssh : Bool) {rest : List String}
    → IsPart over_ssh rest
    → IsSandboxed over_ssh
        ("-d" ∷ words_of (limit_pairs port memory cpus) ++ (security_words over_ssh ++ rest))
whole-IsSandboxed port memory cpus true part = record {
  pairs = limit_pairs port memory cpus ++ (security_pairs true ++ part.pairs);
  words =
      ap (λ words. "-d" ∷ words_of (limit_pairs port memory cpus) ++ (security_words true ++ words))
        part.words;
  permitted = part.permitted;
  drops = refl;
  bounds = refl;
  privileges = refl;
}
whole-IsSandboxed port memory cpus false part = record {
  pairs = limit_pairs port memory cpus ++ (security_pairs false ++ part.pairs);
  words =
      ap
        (λ words. "-d" ∷ words_of (limit_pairs port memory cpus) ++ (security_words false ++ words))
        part.words;
  permitted = part.permitted;
  drops = refl;
  bounds = refl;
  privileges = refl;
}

-- The limits of memory and processors, and the port.
abbrev IsLimited : List String → Type 0
IsLimited words =
    (port memory cpus : String) × (words ≡ "-d" ∷ words_of (limit_pairs port memory cpus))

limits-Yields :
    (rt : Runtime) (host_port : ℕ) (container_port : Value) (d : Fields)
    → Yields IsLimited (limits rt host_port container_port d)
unfolding limits
limits-Yields rt host_port container_port d =
    then_Yields _ IsLimited (to_int (get_or "memory_mb" (int (pos 4096)) d)) _ (any_Yields _)
      (λ memory_mb got. (_, _, _, refl))

docker_options-Yields :
    (rt : Runtime) (host_port : ℕ) (container_port : Value) (d : Fields)
    → Yields (IsSandboxed (is_ssh d)) (docker_options rt host_port container_port d)
unfolding docker_options
docker_options-Yields rt host_port container_port d =
    then_Yields IsLimited (IsSandboxed (is_ssh d)) (limits rt host_port container_port d) _
      (limits-Yields rt host_port container_port d)
      (λ limited (port, memory, cpus, words).
        then_Yields (IsPart (is_ssh d)) (IsSandboxed (is_ssh d))
          (pool_args rt (base_url_of rt d) (get "pool_env" d)) _
          (pool_args-IsPart (is_ssh d) rt (base_url_of rt d) (get "pool_env" d))
          (λ pool part. rw words (
            whole-IsSandboxed port memory cpus (is_ssh d)
              (append-IsPart (add_hosts-IsPart (is_ssh d) known_mining_pool_domains) part))))

-- The options of `docker run` that `start_session` builds, if it builds any, are `-d` and flags with
-- their values: each flag is one that a session may set, or has a fixed value, every capability is
-- dropped and the number of processes is bounded. A session over SSH adds back eight capabilities, and
-- no others; any other session adds none and has `no-new-privileges`. The image and the command, which
-- follow the options, are no part of this.
pub docker_options-IsSandboxed :
    (rt : Runtime) (host_port : ℕ) (container_port : Value) (d : Fields) (options : List String)
    → docker_options rt host_port container_port d ≡ ok options
    → IsSandboxed (is_ssh d) options
docker_options-IsSandboxed rt host_port container_port d options e =
    rw e at (docker_options-Yields rt host_port container_port d)
