-- ===== src/Http.antt =====
-- Go's `http.Header`, as the gateway and order-service use it: the values of each key. A key is
-- written in lower case, since the canonical form of a key forgets its case.
use fund_kit.Base.{String, List, [], ◌∷◌, update}

abbrev pub Headers : Type 0
Headers = String → List String

-- `Header.Get`: the first value, or none as the empty text.
abbrev pub first_value : List String → String
first_value [] = ""
first_value (v ∷ vs) = v

abbrev pub get_header : Headers → String → String
get_header h key = first_value (h key)

-- `Header.Set` and `Header.Del`.
unfoldable pub set_header : Headers → String → String → Headers
set_header h key value = update h key (value ∷ [])

unfoldable pub del_header : Headers → String → Headers
del_header h key = update h key []
