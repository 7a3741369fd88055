-- ===== src/Access/Legend.antt =====
-- src/swimzh/domain/access.py: the legend of the access types.
use swimming_in_zurich.Base.{if◌then◌else◌, List, [], ◌∷◌, String, map}
use swimming_in_zurich.Text.{decimal, join, is_empty}
use swimming_in_zurich.Access.{
  SessionAccess, public_swim, lane_swim, family_time, women_only, seniors_only, school_reserved,
  club_reserved, adults_only, girls_only, gender_diverse, accompanied_children,
}

pub record AccessInfo : Type 0 where
  pub key : String
  pub label : String
  pub description : String

abbrev info : String → String → String → AccessInfo
info key label description = record { key = key; label = label; description = description }

-- `f" ({club})" if club else ""`
abbrev who_of : String → String
who_of club = if is_empty club then "" else join "" (" (" ∷ club ∷ ")" ∷ [])

unfoldable pub access_info : SessionAccess → AccessInfo
unfolding join decimal
access_info public_swim =
    info "public" "Public swim" "Open public swimming — anyone may enter during these hours."
access_info (lane_swim _) =
    info "lane-swim" "Lane swim"
      "Lane swimming (Bahnenschwimmen) — public, organised into lanes for laps/training."
access_info (family_time _) =
    info "family" "Family time" "Family/children session — public, oriented to families and kids."
access_info (women_only _) =
    info "women-only" "Women only"
      "Women-only session (Frauenbad / Frauenschwimmen) — reserved for women."
access_info (seniors_only min_age) =
    info "seniors-only" "Seniors only" (
      join "" ("Seniors session — reserved for guests aged " ∷ decimal min_age ∷ " and over." ∷ []))
access_info school_reserved =
    info "school-reserved" "School reserved" "Reserved for school classes — not open to the public."
access_info (club_reserved club) =
    info "club-reserved" "Club reserved" (
      join "" ("Reserved for a club/association" ∷ who_of club ∷ " — not open to the public." ∷ []))
access_info (adults_only min_age _) = info "adults-only" "Adults only" (
    join "" (
      "Adults-only public window — reserved for guests aged "
      ∷ decimal min_age
      ∷ " and over (typical for school-pool evening swims)."
      ∷ []))
access_info girls_only =
    info "girls-only" "Girls only"
      "Girls-only session (für Mädchen) — the pool publishes no age cutoff, so confirm with the venue."
access_info (gender_diverse min_age) = info "gender-diverse" "Trans and non-binary" (
    join ""
      ("Session open to trans and non-binary people aged " ∷ decimal min_age ∷ " and over." ∷ []))
access_info accompanied_children =
    info "accompanied-children" "Children with an adult"
      "For children only when accompanied by an adult (für Kinder nur mit Erwachsenen)."

abbrev pub representative_access : List SessionAccess
representative_access =
    public_swim
    ∷ lane_swim ""
    ∷ family_time ""
    ∷ women_only ""
    ∷ seniors_only 60
    ∷ school_reserved
    ∷ club_reserved ""
    ∷ adults_only 18 ""
    ∷ girls_only
    ∷ gender_diverse 16
    ∷ accompanied_children
    ∷ []

unfoldable pub access_types : List AccessInfo
unfolding access_info
access_types = map access_info representative_access
