-- ===== src/Delivery/Training.antt =====
-- internal/web/delivery.go: `prepareLevel80Character` and what it knows of the classes. The query
-- on the world database is an argument: its rows, or none where it fails.
use azeroth_core_web.Base.{
  ℕ, Bool, ◌&&◌, ◌||◌, not, Option, none, some, List, [], ◌∷◌, ◌++◌, ◌==◌, ltb, if◌then◌else◌,
  length, contains_num, find_if, update_if,
}
use azeroth_core_web.Db.{Exec, pure, fail, update, transaction, stop_if, ◌>>◌}
use azeroth_core_web.Tables.{Skill, LearnedSpell}
use azeroth_core_web.Delivery.State.{State}

-- level80WeaponSkills
unfoldable pub weapon_skills : ℕ → Option (List ℕ)
weapon_skills class =
    if class == 1
    then some (
        43 ∷ 44 ∷ 45 ∷ 46 ∷ 54 ∷ 55 ∷ 95 ∷ 136 ∷ 160 ∷ 162 ∷ 172 ∷ 173 ∷ 176 ∷ 226 ∷ 229 ∷ 473 ∷ [])
    else if class == 2
    then some (43 ∷ 44 ∷ 54 ∷ 55 ∷ 95 ∷ 160 ∷ 162 ∷ 172 ∷ 229 ∷ [])
    else if class == 3
    then some (43 ∷ 44 ∷ 45 ∷ 46 ∷ 55 ∷ 95 ∷ 136 ∷ 162 ∷ 172 ∷ 173 ∷ 226 ∷ 229 ∷ 473 ∷ [])
    else if class == 4
    then some (43 ∷ 45 ∷ 46 ∷ 54 ∷ 95 ∷ 162 ∷ 173 ∷ 176 ∷ 226 ∷ 473 ∷ [])
    else if class == 5
    then some (54 ∷ 95 ∷ 136 ∷ 162 ∷ 173 ∷ 228 ∷ [])
    else if class == 6
    then some (43 ∷ 44 ∷ 54 ∷ 55 ∷ 95 ∷ 160 ∷ 162 ∷ 172 ∷ 229 ∷ [])
    else if class == 7
    then some (44 ∷ 54 ∷ 95 ∷ 136 ∷ 162 ∷ 173 ∷ 473 ∷ [])
    else if (class == 8) || (class == 9)
    then some (43 ∷ 95 ∷ 136 ∷ 162 ∷ 173 ∷ 228 ∷ [])
    else if class == 11
    then some (54 ∷ 95 ∷ 136 ∷ 160 ∷ 162 ∷ 173 ∷ 229 ∷ 473 ∷ [])
    else none

-- weaponProficiencySpells, with Go's zero for a missing key
abbrev proficiency_rows : List (ℕ × ℕ)
proficiency_rows =
    (43, 201)
    ∷ (44, 196)
    ∷ (45, 264)
    ∷ (46, 266)
    ∷ (54, 198)
    ∷ (55, 202)
    ∷ (136, 227)
    ∷ (160, 199)
    ∷ (172, 197)
    ∷ (173, 1180)
    ∷ (176, 2567)
    ∷ (226, 5011)
    ∷ (228, 5009)
    ∷ (229, 200)
    ∷ (473, 15590)
    ∷ []

lookup_or_zero : ℕ → List (ℕ × ℕ) → ℕ
lookup_or_zero k [] = 0
lookup_or_zero k ((j, v) ∷ rows) = if j == k then v else lookup_or_zero k rows

unfoldable pub proficiency_spell : ℕ → ℕ
unfolding lookup_or_zero
proficiency_spell skill = lookup_or_zero skill proficiency_rows

-- level80RidingSpells
abbrev pub riding_spells : List ℕ
riding_spells = 33388 ∷ 33391 ∷ 34090 ∷ 34091 ∷ 54197 ∷ []

-- A trainer's spell with its three effects, each with the spell that it triggers.
pub record TrainerSpell : Type 0 where
  pub spell : ℕ
  pub effects : List (ℕ × ℕ)

taught : List (ℕ × ℕ) → List ℕ
taught [] = []
taught ((effect, trigger) ∷ effects) =
    let rest = taught effects in
    if (effect == 36) && not (trigger == 0) then trigger ∷ rest else rest

or_itself : ℕ → List ℕ → List ℕ
or_itself spell [] = spell ∷ []
or_itself spell (t ∷ learned) = t ∷ learned

unfoldable pub learned_trainer_spells : TrainerSpell → List ℕ
unfolding taught or_itself
learned_trainer_spells row = or_itself row.spell (taught row.effects)

unfoldable pub class_spells : List TrainerSpell → List ℕ
class_spells [] = []
class_spells (row ∷ rows) = learned_trainer_spells row ++ class_spells rows

unfoldable pub proficiencies : List ℕ → List ℕ
proficiencies [] = []
proficiencies (skill ∷ skills) =
    let rest = proficiencies skills in
    let spell = proficiency_spell skill in if spell == 0 then rest else spell ∷ rest

-- `INSERT ... ON DUPLICATE KEY UPDATE value=GREATEST(value,n),max=GREATEST(max,n)`
abbrev pub greatest : ℕ → ℕ → ℕ
greatest a b = if ltb a b then b else a

abbrev pub at_skill : ℕ → ℕ → Skill → Bool
at_skill guid skill row = (row.guid == guid) && (row.skill == skill)

unfoldable pub raise_skill : ℕ → ℕ → ℕ → List Skill → List Skill
raise_skill guid skill level rows = elim (find_if (at_skill guid skill) rows) [
  | none ↦ rows ++ record { guid = guid; skill = skill; value = level; max = level } ∷ []
  | some _ ↦
      update_if (at_skill guid skill)
        (λ row. record row { value = greatest row.value level; max = greatest row.max level }) rows
]

-- `INSERT IGNORE INTO character_spell(guid,spell,specMask) VALUES(?,?,3)`
abbrev pub at_spell : ℕ → ℕ → LearnedSpell → Bool
at_spell guid spell row = (row.guid == guid) && (row.spell == spell)

unfoldable pub learn_spell : ℕ → ℕ → List LearnedSpell → List LearnedSpell
learn_spell guid spell rows = elim (find_if (at_spell guid spell) rows) [
  | none ↦ rows ++ record { guid = guid; spell = spell; spec_mask = 3 } ∷ []
  | some _ ↦ rows
]

-- Why training stopped.
pub data TrainingError : Type 0 where
  unsupported_class no_trainer_rows no_class_spells unavailable skill_failed spell_failed :
      TrainingError

unfoldable pub train_skills : ℕ → List ℕ → Exec State TrainingError Unit
train_skills guid [] = pure tt
train_skills guid (skill ∷ skills) =
    update TrainingError.skill_failed (λ _. tt {0})
      (λ s. record s { skills = raise_skill guid skill 400 s.skills })
    >> train_skills guid skills

-- The loop over the spells skips 0 and what it has seen.
unfoldable pub learn_spells : ℕ → List ℕ → List ℕ → Exec State TrainingError Unit
learn_spells guid seen [] = pure tt
learn_spells guid seen (spell ∷ spells) =
    let skipped = learn_spells guid seen spells in
    let learned =
      update TrainingError.spell_failed (λ _. tt {0})
        (λ s. record s { spells = learn_spell guid spell s.spells })
      >> learn_spells guid (spell ∷ seen) spells in
    if (spell == 0) || contains_num seen spell then skipped else learned

unfoldable pub training_body : ℕ → List ℕ → List ℕ → Exec State TrainingError Unit
training_body guid skills spells = do
  train_skills guid skills
  update TrainingError.skill_failed (λ _. tt {0})
      (λ s. record s { skills = raise_skill guid 762 300 s.skills })
  learn_spells guid [] spells

-- The transaction, once the rows are read.
unfoldable pub train_with : ℕ → List ℕ → List TrainerSpell → Exec State TrainingError Unit
train_with guid skills rows = do
  stop_if (length (class_spells rows) == 0) TrainingError.no_class_spells
  transaction TrainingError.unavailable TrainingError.unavailable
      (training_body guid skills (riding_spells ++ (class_spells rows ++ proficiencies skills)))

unfoldable pub train_rows : ℕ → List ℕ → Option (List TrainerSpell) → Exec State TrainingError Unit
train_rows guid skills none = fail TrainingError.no_trainer_rows
train_rows guid skills (some rows) = train_with guid skills rows

unfoldable pub train_class :
    ℕ → Option (List TrainerSpell) → Option (List ℕ) → Exec State TrainingError Unit
train_class guid rows none = fail TrainingError.unsupported_class
train_class guid rows (some skills) = train_rows guid skills rows

unfoldable pub prepare_level_80 :
    (ℕ → Option (List TrainerSpell)) → ℕ → ℕ → Exec State TrainingError Unit
prepare_level_80 trainer_spells guid class =
    train_class guid (trainer_spells class) (weapon_skills class)
